-- ===== src/Billing/Create/Limits.antt =====
-- CreatePayment and the limit of uses of a promo code.
use xraytool_go.Prelude.{
  ℕ, Bool, true, false, ◌≡◌, refl, sym, ◌⊎◌, inl, inr, Option, none, some, List, [], ◌∷◌, String,
  arith, All, All-update_where, update_where, first, Option-cases, Bool-cases, ◌==◌, if◌then◌else◌,
}
use xraytool_go.Prelude.Int.{ℤ, pos, ◌≤ℤ◌, +ℤ_parts, ltb_ℤ}
use xraytool_go.GoLib.{GoLib, Clock}
use xraytool_go.Domain.{PromoCode, Payment}
use mathlib.Core.Path.{subst}
use xraytool_go.Database.{Db, Faults, increment_uses as increment_stmt}
use xraytool_go.Database.Promos
use xraytool_go.Database.Promos.{increment_uses, countable, count_use}
use xraytool_go.Database.Payments.{create, count_by_user_and_promo}
use xraytool_go.Pricing.Legacy.{CreatePaymentRequest, PricingEngine}
use xraytool_go.Billing.Create.{
  create_payment, insert_body, invalid_request, redeem, redeem_if, use_promo,
}
use xraytool_go.Billing.Create.Frame.{valid-P}

-- A code that has a limit has not been used more often.
abbrev pub IsWithin : PromoCode → Type 0
IsWithin p = (p.max_uses ≤ℤ pos 0) ⊎ (p.uses_count ≤ℤ p.max_uses)

-- The key of the table: no two rows have one id.
abbrev pub HasUniqueIds : List PromoCode → Type 0
HasUniqueIds [] = Unit
HasUniqueIds (p ∷ ps) = All (λ q. (q.id == p.id) ≡ false) ps × HasUniqueIds ps

-- What a search by id finds speaks for every row with that id.
abbrev HasLimit : ℕ → ℤ → PromoCode → Type 0
HasLimit id n q = (q.id == id) ≡ true → q.max_uses ≡ n

none_with :
    (id k : ℕ) (n : ℤ) (ps : List PromoCode)
    → (k == id) ≡ true
    → All (λ q. (q.id == k) ≡ false) ps
    → All (HasLimit id n) ps
none_with id k n [] e h = tt
none_with id k n (q ∷ ps) e h = ((λ same. ground (arith, h.0)), none_with id k n ps e h.1)

limit_lem :
    (id : ℕ) (ps : List PromoCode) (p : PromoCode)
    → HasUniqueIds ps
    → first (λ q. q.id == id) ps ≡ some p
    → All (HasLimit id p.max_uses) ps
limit_lem id [] p h e = tt
limit_lem id (q ∷ ps) p h e = elim (Bool-cases (q.id == id)) [
  | inl same ↦ ((λ _. ground arith), none_with id q.id p.max_uses ps same h.0)
  | inr other ↦ ((λ same. ground arith), limit_lem id ps p h.1 (ground arith))
]

abbrev IsLimited : ℕ → ℤ → PromoCode → Type 0
IsLimited id n q = IsWithin q × HasLimit id n q

All-pair :
    (P Q : PromoCode → Type 0) (ps : List PromoCode) → All P ps → All Q ps → All (λ p. P p × Q p) ps
All-pair P Q [] h k = tt
All-pair P Q (p ∷ ps) h k = ((h.0, k.0), All-pair P Q ps h.1 k.1)

All-left : (P Q : PromoCode → Type 0) (ps : List PromoCode) → All (λ p. P p × Q p) ps → All P ps
All-left P Q [] h = tt
All-left P Q (p ∷ ps) h = (h.0.0, All-left P Q ps h.1)

-- The limit that the update tests is the row's own, or the row has none.
abbrev Tested : ℤ → ℤ → Type 0
Tested n m = (n ≡ m) ⊎ (m ≤ℤ pos 0)

count_step :
    (id : ℕ) (n m : ℤ) (q : PromoCode)
    → Tested n m
    → countable id n q ≡ true
    → IsLimited id m q
    → IsLimited id m (count_use q)
count_step id n m q t c h = (ground (arith, t, h.1, h.0, +ℤ_parts q.uses_count (pos 1)), h.1)

row_id : (b : Bool) (p : PromoCode) → (if b then count_use p else p).id ≡ p.id
row_id true p = refl
row_id false p = refl

unique-update :
    (r : PromoCode → Bool) (ps : List PromoCode)
    → HasUniqueIds ps
    → HasUniqueIds (update_where r count_use ps)
unique-update r [] h = tt
unique-update r (p ∷ ps) h = (
  rw row_id (All-update_where (λ q. (q.id == p.id) ≡ false) r count_use (λ x _ k. k) ps h.0),
  unique-update r ps h.1,
)

-- The promo codes of a database: keyed, and none over its limit.
pub record IsFair (db : Db) : Type 0 where
  pub unique : HasUniqueIds db.promos
  pub within : All IsWithin db.promos

IsFair-same : (a b : Db) → b.promos ≡ a.promos → IsFair a → IsFair b
IsFair-same a b e h = record {
  unique = subst HasUniqueIds (sym e) h.unique;
  within = subst (All IsWithin) (sym e) h.within;
}

module _ (faults : Faults) where
  -- Counting a use against the limit of the code that was found, or without one.
  incremented :
      (id : ℕ) (n : ℤ) (promo : PromoCode) (db : Db)
      → first (λ q. q.id == id) db.promos ≡ some promo
      → Tested n promo.max_uses
      → IsFair db
      → IsFair (increment_uses faults id n db).1
  unfolding increment_uses
  incremented id n promo db e limit h = elim (Bool-cases (faults increment_stmt)) [
    | inl refused ↦ rw refused h
    | inr done ↦ rw done (record {
      unique = unique-update (countable id n) db.promos h.unique;
      within = All-left IsWithin (HasLimit id promo.max_uses) _ (
          All-update_where (IsLimited id promo.max_uses) (countable id n) count_use
            (λ q. count_step id n promo.max_uses q limit) db.promos
            (All-pair IsWithin (HasLimit id promo.max_uses) db.promos h.within
              (limit_lem id db.promos promo h.unique e)));
    })
  ]

  used :
      (id : ℕ) (promo : PromoCode) (db : Db)
      → first (λ q. q.id == id) db.promos ≡ some promo
      → IsFair db
      → IsFair (use_promo faults id promo db).1
  unfolding use_promo
  used id promo db e h = elim (Bool-cases (ltb_ℤ (pos 0) promo.max_uses)) [
    | inl limited ↦
        IsFair-same (increment_uses faults id promo.max_uses db).1 _ (ground arith)
          (incremented id promo.max_uses promo db e (inl refl) h)
    | inr open_ended ↦
        IsFair-same (increment_uses faults id (pos 0) db).1 _ (ground arith)
          (incremented id (pos 0) promo db e (inr (ground arith)) h)
  ]

  counted-promos :
      (u : String) (id : ℕ) (db : Db)
      → (count_by_user_and_promo faults u id db).1.promos ≡ db.promos
  unfolding count_by_user_and_promo
  counted-promos u id db = ground arith

  redeem-promos :
      (now : ℕ) (u : String) (id : ℕ) (promo : PromoCode) (db : Db)
      → first (λ q. q.id == id) db.promos ≡ some promo
      → ((redeem faults now u id db).1.promos ≡ db.promos)
        ⊎ ((redeem faults now u id db).1.promos ≡ (use_promo faults id promo db).1.promos)
  unfolding redeem Promos.find_by_id
  redeem-promos now u id promo db e =
      ground (arith, counted-promos u id (use_promo faults id promo db).1)

  redeemed :
      (now : ℕ) (u : String) (id : ℕ) (db : Db) → IsFair db → IsFair (redeem faults now u id db).1
  redeemed now u id db h = elim (Option-cases (first (λ q. q.id == id) db.promos)) [
    | inl missing ↦ IsFair-same db _ (unfold redeem Promos.find_by_id in ground arith) h
    | inr (promo, e) ↦ elim (redeem-promos now u id promo db e) [
      | inl same ↦ IsFair-same db _ same h
      | inr spent ↦ IsFair-same (use_promo faults id promo db).1 _ spent (used id promo db e h)
    ]
  ]

module _ (go : GoLib) (faults : Faults) where
  created-promos : (p : Payment) (db : Db) → (create go faults p db).1.promos ≡ db.promos
  unfolding create
  created-promos p db = ground arith

  redeem_if-Fair :
      (now : ℕ) (u : String) (id : Option ℕ) (db : Db)
      → IsFair db
      → IsFair (redeem_if faults now u id db).1
  unfolding redeem_if
  redeem_if-Fair now u none db h = h
  redeem_if-Fair now u (some id) db h = redeemed faults now u id db h

  insert_body-Fair :
      (now : ℕ) (p : Payment) (db : Db) → IsFair db → IsFair (insert_body go faults now p db).1
  unfolding insert_body
  insert_body-Fair now p db h =
      IsFair-same (redeem_if faults now p.user_id p.promo_code_id db).1 _
        (ground (arith, created-promos p (redeem_if faults now p.user_id p.promo_code_id db).1))
        (redeem_if-Fair now p.user_id p.promo_code_id db h)

-- If the promo codes have distinct ids and none has been used more often than its limit, then the
-- same holds after a payment has been created or refused, whatever the pricing engine answers and
-- whichever statements the driver refuses.
pub create_payment-IsFair :
    (engine : Option PricingEngine) (go : GoLib) (clock : Clock) (faults : Faults)
    (req : CreatePaymentRequest) (db : Db)
    → IsFair db
    → IsFair (create_payment engine go clock faults req db).1
unfolding create_payment
create_payment-IsFair engine go clock faults req db =
    valid-P engine go clock faults IsFair (insert_body-Fair go faults) req (invalid_request req) db
