-- ===== src/Database/Payments.antt =====
-- gormPaymentRepo of internal/database/repo_gorm.go.
use xraytool_go.Prelude.{
  ℕ, suc, Bool, true, false, ◌&&◌, ◌||◌, not, Option, none, some, List, [], ◌∷◌, ◌++◌, String,
  first, exists, keep, length, update_where, ltb, ◌==◌, str_eq, if◌then◌else◌,
}
use xraytool_go.GoLib.{GoLib}
use xraytool_go.Result.{Result, ok, err, not_found, duplicate}
use xraytool_go.Domain.{Payment, Metadata, Value, int_value, float_value}
use xraytool_go.Database.Tables.{
  Db, Faults, find_payment, update_status as update_status_stmt, count_payments,
  create_payment as create_payment_stmt, update_payment, statement,
}

abbrev found : Option Payment → Result Payment
found none = err not_found
found (some p) = ok p

unfoldable pub find_by_id : Faults → ℕ → Db → Result Payment × Db
find_by_id faults id db =
    statement (faults find_payment) (found (first (λ p. p.id == id) db.payments), db) db

-- A nullable column equals a text only where it holds one.
abbrev pub holds : Option String → String → Bool
holds none s = false
holds (some t) s = str_eq t s

abbrev pub payment_of : String → Db → Option Payment
payment_of ext_id db = first (λ p. holds p.external_id ext_id) db.payments

unfoldable pub find_by_external_id : Faults → String → Db → Result Payment × Db
find_by_external_id faults ext_id db =
    statement (faults find_payment) (found (payment_of ext_id db), db) db

abbrev pub set_status : (Payment → Bool) → String → Db → Db
set_status p status db = record db {
  payments = update_where p (λ q. record q { status = status }) db.payments;
}

abbrev elem : String → List String → Bool
elem s [] = false
elem s (t ∷ ts) = str_eq s t || elem s ts

abbrev pub is_empty : List String → Bool
is_empty [] = true
is_empty (_ ∷ _) = false

-- The rows that UpdateStatus selects.
abbrev pub selected : ℕ → String → List String → Payment → Bool
selected payment_id new_status expected p =
    p.id == payment_id
    && (if not (is_empty expected)
        then elem p.status expected
        else if str_eq new_status "completed"
        then not (str_eq p.status "completed")
        else true)

unfoldable pub update_status : Faults → ℕ → String → List String → Db → Result Bool × Db
update_status faults payment_id new_status expected db =
    let rows = selected payment_id new_status expected in
    statement (faults update_status_stmt)
      (ok (exists rows db.payments), set_status rows new_status db) db

abbrev pub not_completed : ℕ → Payment → Bool
not_completed payment_id p = p.id == payment_id && not (str_eq p.status "completed")

unfoldable pub update_status_if_not_completed : Faults → ℕ → String → Db → Result Bool × Db
update_status_if_not_completed faults payment_id new_status db =
    let rows = not_completed payment_id in
    statement (faults update_status_stmt)
      (ok (exists rows db.payments), set_status rows new_status db) db

abbrev pub eq_id : Option ℕ → ℕ → Bool
eq_id none n = false
eq_id (some m) n = m == n

-- The payments that use up a user's promo code.
abbrev pub uses_promo : String → ℕ → Payment → Bool
uses_promo user_id promo_id p =
    str_eq p.user_id user_id
    && eq_id p.promo_code_id promo_id
    && (str_eq p.status "completed" || str_eq p.status "pending_card")

unfoldable pub count_by_user_and_promo : Faults → String → ℕ → Db → Result ℕ × Db
count_by_user_and_promo faults user_id promo_id db =
    statement (faults count_payments)
      (ok (length (keep (uses_promo user_id promo_id) db.payments)), db) db

-- JSON has one kind of number, so an `int` comes back from the column as a `float64`.
abbrev pub stored_value : GoLib → Value → Value
stored_value go (int_value n) = float_value (go.float_of_int n)
stored_value go v = v

abbrev pub stored : GoLib → Metadata → Metadata
stored go [] = []
stored go ((k, v) ∷ m) = (k, stored_value go v) ∷ stored go m

abbrev pub same_external_id : Option String → Payment → Bool
same_external_id none p = false
same_external_id (some s) p = holds p.external_id s

-- `Create` keeps the caller's record but for its key, and stores the custom data as JSON: the key is the next automatic one, and `external_id` has a unique index.
unfoldable pub create : GoLib → Faults → Payment → Db → Result Payment × Db
create go faults p db =
    let made : Payment = record p { id = db.next_payment } in
    let row : Payment = record made { custom_data = stored go p.custom_data } in
    statement (faults create_payment_stmt)
      (if exists (same_external_id p.external_id) db.payments then (err duplicate, db) else (
        ok made,
        record db { payments = db.payments ++ row ∷ []; next_payment = suc db.next_payment },
      ))
      db

-- `Save` of a row that exists.
unfoldable pub update : Faults → Payment → Db → Result (Unit {0}) × Db
update faults p db =
    statement (faults update_payment)
      (if exists (λ q. same_external_id p.external_id q && not (q.id == p.id)) db.payments
        then (err duplicate, db)
        else (
          ok tt,
          record db { payments = update_where (λ q. q.id == p.id) (λ _. p) db.payments },
        ))
      db

abbrev is_final : String → Bool
is_final s = str_eq s "completed" || str_eq s "failed" || str_eq s "canceled"

abbrev has_external_id : Payment → Bool
has_external_id p = elim p.external_id [ none ↦ false | some _ ↦ true ]

abbrev pub scrubbable : ℕ → Payment → Bool
scrubbable cutoff p = is_final p.status && ltb p.created_at cutoff && has_external_id p

unfoldable pub scrub_old_external_ids : Faults → ℕ → Db → Result ℕ × Db
scrub_old_external_ids faults cutoff db =
    let rows = scrubbable cutoff in
    statement (faults update_payment)
      (
        ok (length (keep rows db.payments)),
        record db {
          payments = update_where rows (λ p. record p { external_id = none }) db.payments;
        },
      )
      db
