-- ===== src/Database/Subscriptions/Effect.antt =====
-- AutoRenewSubscription: the tables beside the subscriptions, and the balances.
use xraytool_go.Prelude.{
  ℕ, ◌≡◌, sym, Bool, true, Option, none, some, [], String, arith, All, All-update_where,
}
use xraytool_go.Prelude.Int.{ℤ, pos, ◌≤ℤ◌, -ℤ_parts}
use xraytool_go.GoLib.{GoLib, Clock}
use mathlib.Core.Path.{subst}
use xraytool_go.Result.{Result}
use xraytool_go.Domain.{User, Subscription, Metadata}
use xraytool_go.Database.Tables.{Db, Faults, ◌>>=◌}
use xraytool_go.Database.Keeps.{Keeps, Keeps-bind, Keeps-transaction}
use xraytool_go.Database.Subscriptions.{
  find_subscription_row, next_end, debit, write_subscription, reset_notifications, write_metadata,
  auto_renew_body, auto_renew_subscription, can_pay, pay,
}

-- The tables that a renewal does not touch.
pub record SameMoneyTables (a b : Db) : Type 0 where
  pub payments : b.payments ≡ a.payments
  pub promos : b.promos ≡ a.promos
  pub plans : b.plans ≡ a.plans
  pub devices : b.devices ≡ a.devices
  pub rewards : b.rewards ≡ a.rewards
  pub next_payment : b.next_payment ≡ a.next_payment

Same-refl : (a : Db) → SameMoneyTables a a
Same-refl a = ground arith

Same-trans : (a b c : Db) → SameMoneyTables a b → SameMoneyTables b c → SameMoneyTables a c
Same-trans a b c h k = ground arith

module _ (go : GoLib) (clock : Clock) (faults : Faults) where
  find-Same : (u : String) → Keeps SameMoneyTables (find_subscription_row faults u)
  unfolding find_subscription_row
  find-Same u = record { at = λ db. ground arith }

  next-Same :
      (s : Subscription) (p e : Option ℕ) → Keeps SameMoneyTables (next_end go clock faults s p e)
  unfolding next_end
  next-Same s none none = record { at = λ db. ground arith }
  next-Same s none (some e) = record { at = λ db. ground arith }
  next-Same s (some p) e = record { at = λ db. ground arith }

  debit-Same : (u : String) (n : ℤ) → Keeps SameMoneyTables (debit faults u n)
  unfolding debit
  debit-Same u n = record { at = λ db. ground arith }

  write-Same :
      (s : String) (e : ℕ) (n : ℤ) (t : ℕ)
      → Keeps SameMoneyTables (write_subscription faults s e n t)
  unfolding write_subscription
  write-Same s e n t = record { at = λ db. ground arith }

  reset-Same :
      (t : ℕ) (s : String) (e : ℕ)
      → Keeps SameMoneyTables (reset_notifications go faults t s (some e) [])
  unfolding reset_notifications
  reset-Same t s e = record { at = λ db. ground arith }

  metadata-Same :
      (p : Option ℕ) (s : String) (m : Metadata)
      → Keeps SameMoneyTables (write_metadata faults p s m)
  unfolding write_metadata
  metadata-Same none s m = record { at = λ db. ground arith }
  metadata-Same (some p) s m = record { at = λ db. ground arith }

  body-Same :
      (u : String) (p : Option ℕ) (n : ℤ) (e : Option ℕ) (d : ℤ)
      → Keeps SameMoneyTables (auto_renew_body go clock faults u p n e d)
  unfolding auto_renew_body
  body-Same u p n e d = bind (find-Same u) λ s. bind (next-Same s p e) λ next.
      bind (debit-Same u n) λ _.
        bind (write-Same s.id next.0 d (clock 1))
          λ _. bind (reset-Same (clock 2) s.id next.0) λ _. metadata-Same p s.id next.1
    where
      bind :
          {A B : Type 0} {m : Db → Result A × Db} {f : A → Db → Result B × Db}
          → Keeps SameMoneyTables m
          → ((x : A) → Keeps SameMoneyTables (f x))
          → Keeps SameMoneyTables (m >>= f)
      bind {m = m} {f = f} = Keeps-bind Same-refl Same-trans m f

  -- A renewal leaves the payments, promos, plans, devices and rewards alone.
  pub auto_renew-Same :
      (refused : Bool) (u : String) (p : Option ℕ) (n : ℤ) (e : Option ℕ) (d : ℤ)
      → Keeps SameMoneyTables (auto_renew_subscription go clock faults refused u p n e d)
  unfolding auto_renew_subscription
  auto_renew-Same refused u p n e d =
      Keeps-transaction Same-refl Same-trans refused _ (body-Same u p n e d)

-- No balance is below zero.
abbrev pub IsSolvent : User → Type 0
IsSolvent u = pos 0 ≤ℤ u.balance

abbrev pub AllSolvent : Db → Type 0
AllSolvent db = All IsSolvent db.users

pub record Solvent (a b : Db) : Type 0 where
  pub solvent : AllSolvent a → AllSolvent b

pub Solvent-refl : (a : Db) → Solvent a a
Solvent-refl a = record { solvent = λ h. h }

pub Solvent-trans : (a b c : Db) → Solvent a b → Solvent b c → Solvent a c
Solvent-trans a b c h k = record { solvent = λ s. k.solvent (h.solvent s) }

-- An action that leaves the users alone.
pub Solvent-same : (a b : Db) → b.users ≡ a.users → Solvent a b
Solvent-same a b e = record { solvent = λ h. subst (All IsSolvent) (sym e) h }

can_pay-IsSolvent :
    (u : String) (n : ℤ) (x : User) → can_pay u n x ≡ true → IsSolvent x → IsSolvent (pay n x)
can_pay-IsSolvent u n x h s = ground (arith, -ℤ_parts x.balance n)

module _ (go : GoLib) (clock : Clock) (faults : Faults) where
  find-Solvent : (u : String) → Keeps Solvent (find_subscription_row faults u)
  unfolding find_subscription_row
  find-Solvent u = record { at = λ db. Solvent-same db _ (ground arith) }

  next-Solvent :
      (s : Subscription) (p e : Option ℕ) → Keeps Solvent (next_end go clock faults s p e)
  unfolding next_end
  next-Solvent s none none = record { at = λ db. Solvent-same db _ (ground arith) }
  next-Solvent s none (some e) = record { at = λ db. Solvent-same db _ (ground arith) }
  next-Solvent s (some p) e = record { at = λ db. Solvent-same db _ (ground arith) }

  debited : (u : String) (n : ℤ) (db : Db) → AllSolvent db → AllSolvent (debit faults u n db).1
  unfolding debit
  debited u n db h =
      ground
        (arith, All-update_where IsSolvent (can_pay u n) (pay n) (can_pay-IsSolvent u n) db.users h)

  debit-Solvent : (u : String) (n : ℤ) → Keeps Solvent (debit faults u n)
  debit-Solvent u n = record { at = λ db. record { solvent = debited u n db } }

  write-Solvent :
      (s : String) (e : ℕ) (n : ℤ) (t : ℕ) → Keeps Solvent (write_subscription faults s e n t)
  unfolding write_subscription
  write-Solvent s e n t = record { at = λ db. Solvent-same db _ (ground arith) }

  reset-Solvent :
      (t : ℕ) (s : String) (e : ℕ) → Keeps Solvent (reset_notifications go faults t s (some e) [])
  unfolding reset_notifications
  reset-Solvent t s e = record { at = λ db. Solvent-same db _ (ground arith) }

  metadata-Solvent :
      (p : Option ℕ) (s : String) (m : Metadata) → Keeps Solvent (write_metadata faults p s m)
  unfolding write_metadata
  metadata-Solvent none s m = record { at = λ db. Solvent-same db _ (ground arith) }
  metadata-Solvent (some p) s m = record { at = λ db. Solvent-same db _ (ground arith) }

  body-Solvent :
      (u : String) (p : Option ℕ) (n : ℤ) (e : Option ℕ) (d : ℤ)
      → Keeps Solvent (auto_renew_body go clock faults u p n e d)
  unfolding auto_renew_body
  body-Solvent u p n e d = bind (find-Solvent u) λ s. bind (next-Solvent s p e) λ next.
      bind (debit-Solvent u n) λ _.
        bind (write-Solvent s.id next.0 d (clock 1))
          λ _. bind (reset-Solvent (clock 2) s.id next.0) λ _. metadata-Solvent p s.id next.1
    where
      bind :
          {A B : Type 0} {m : Db → Result A × Db} {f : A → Db → Result B × Db}
          → Keeps Solvent m
          → ((x : A) → Keeps Solvent (f x))
          → Keeps Solvent (m >>= f)
      bind {m = m} {f = f} = Keeps-bind Solvent-refl Solvent-trans m f

  -- A renewal takes no balance below zero.
  pub auto_renew-Solvent :
      (refused : Bool) (u : String) (p : Option ℕ) (n : ℤ) (e : Option ℕ) (d : ℤ)
      → Keeps Solvent (auto_renew_subscription go clock faults refused u p n e d)
  unfolding auto_renew_subscription
  auto_renew-Solvent refused u p n e d =
      Keeps-transaction Solvent-refl Solvent-trans refused _ (body-Solvent u p n e d)
