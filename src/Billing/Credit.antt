-- ===== src/Billing/Credit.antt =====
-- ProcessExternalPaymentStatus: the credit of a top-up.
use xraytool_go.Prelude.{
  Bool, refl, true, false, ◌≡◌, ap, if◌then◌else◌, Option, none, some, [], ◌∷◌, String, arith,
  str_eq, exists, exists-of-first,
}
use xraytool_go.Prelude.Int.{ℤ, pos, negsuc, ◌+ℤ◌, ltb_ℤ}
use xraytool_go.GoLib.{GoLib, Clock}
use xraytool_go.Result.{ok}
use xraytool_go.Domain.{Payment}
use xraytool_go.Database.{Db, Faults}
use xraytool_go.Database.Users.{
  adjust_balance, balance_of, balance_of-update_where, changed_balance, credited,
}
use xraytool_go.Database.Payments.{
  payment_of, set_status, not_completed, holds, find_by_external_id, update_status_if_not_completed,
}
use xraytool_go.Billing.Settle.{
  complete, complete_by, completed, event_of, mapped_status, process_external_payment_status,
  settle_found,
}

-- A balance stops at 0 from below.
abbrev pub zero_or_more : ℤ → ℤ
zero_or_more (pos n) = pos n
zero_or_more (negsuc n) = pos 0

-- The balance of the payer after a top-up, or that of another user.
abbrev pub paid_balance : Bool → ℤ → Option ℤ → Option ℤ
paid_balance true amount (some balance) = some (zero_or_more (balance +ℤ amount))
paid_balance true amount none = none
paid_balance false amount o = o

zero_or_more_lem : (z : ℤ) → (if ltb_ℤ z (pos 0) then pos 0 else z) ≡ zero_or_more z
zero_or_more_lem (pos n) = ground arith
zero_or_more_lem (negsuc n) = ground arith

changed-paid_balance :
    (is_payer : Bool) (amount : ℤ) (o : Option ℤ)
    → changed_balance is_payer (credited amount) o ≡ paid_balance is_payer amount o
unfolding credited
changed-paid_balance true amount none = refl
changed-paid_balance true amount (some balance) = ap some (zero_or_more_lem (balance +ℤ amount))
changed-paid_balance false amount none = refl
changed-paid_balance false amount (some balance) = refl

module _ (go : GoLib) (clock : Clock) (faults : Faults) where
  complete-credits :
      (p : Payment) (db : Db) (u : String)
      → str_eq p.method "balance" ≡ false
      → (complete_by go clock faults p none db).0 ≡ ok tt
      → balance_of u (complete_by go clock faults p none db).1.users
        ≡ changed_balance (str_eq p.user_id u) (credited p.amount) (balance_of u db.users)
  unfolding complete_by adjust_balance
  complete-credits p db u m h =
      ground (arith, balance_of-update_where p.user_id u (credited p.amount) db.users)

  updated_lem :
      (ext_id : String) (db : Db) (p : Payment)
      → payment_of ext_id db ≡ some p
      → str_eq p.status "completed" ≡ false
      → exists (not_completed p.id) db.payments ≡ true
  updated_lem ext_id db p e c =
      exists-of-first (λ q. holds q.external_id ext_id) (not_completed p.id) db.payments p e
        (ground arith)

  settle_found-credits :
      (ext_id : String) (db : Db) (p : Payment) (u : String)
      → payment_of ext_id db ≡ some p
      → p.plan_id ≡ none
      → str_eq p.method "balance" ≡ false
      → str_eq p.status "completed" ≡ false
      → (r : Option Payment) → (settle_found go clock faults "completed" p db).0 ≡ ok r
      → (r ≡ some p)
        × (balance_of u (settle_found go clock faults "completed" p db).1.users
            ≡ changed_balance (str_eq p.user_id u) (credited p.amount) (balance_of u db.users))
  unfolding settle_found update_status_if_not_completed completed complete
  settle_found-credits ext_id db p u e pl m c r h = ground (
    arith,
    updated_lem ext_id db p e c,
    complete-credits p (set_status (not_completed p.id) "completed" db) u m,
  )

-- A payment without a plan that was not made from the balance and is not completed yet: a call that
-- reports one of the settled statuses and returns no error adds the amount to the payer's balance,
-- which stops at 0 from below, leaves every other balance as it was, and dispatches one event, the
-- payment's.
pub topup_credits :
    (go : GoLib) (clock : Clock) (faults : Faults) (ext_id status : String) (db : Db) (p : Payment)
    (u : String)
    → payment_of ext_id db ≡ some p
    → p.plan_id ≡ none
    → str_eq p.method "balance" ≡ false
    → str_eq p.status "completed" ≡ false
    → mapped_status status ≡ "completed"
    → let out = process_external_payment_status go clock faults ext_id status db in
      out.result ≡ ok tt
      → (out.events ≡ event_of p ∷ [])
        × (balance_of u out.db.users
            ≡ paid_balance (str_eq p.user_id u) p.amount (balance_of u db.users))
unfolding process_external_payment_status find_by_external_id
topup_credits go clock faults ext_id status db p u e pl m c s h = ground (
  arith,
  changed-paid_balance (str_eq p.user_id u) p.amount (balance_of u db.users),
  ap (λ t. settle_found go clock faults t p db) s,
  settle_found-credits go clock faults ext_id db p u e pl m c none,
  settle_found-credits go clock faults ext_id db p u e pl m c (some p),
)
