-- ===== src/Database/Promos.antt =====
-- gormPromoRepo and gormPlanRepo of internal/database/repo_gorm.go.
use xraytool_go.Prelude.{
  ℕ, Bool, true, ◌&&◌, Option, none, some, String, first, exists, update_where, ◌==◌, str_eq,
  if◌then◌else◌,
}
use xraytool_go.Prelude.Int.{ℤ, pos, ◌+ℤ◌, ltb_ℤ}
use xraytool_go.Result.{Result, ok, err, not_found}
use xraytool_go.Domain.{PromoCode, Plan}
use xraytool_go.Database.Tables.{
  Db, Faults, find_promo, find_plan, increment_uses as increment_uses_stmt, statement,
}

abbrev found {ℓ} : {A : Type ℓ} → Option A → Result A
found none = err not_found
found (some a) = ok a

unfoldable pub find_plan_by_id : Faults → ℕ → Db → Result Plan × Db
find_plan_by_id faults id db =
    statement (faults find_plan) (found (first (λ p. p.id == id) db.plans), db) db

unfoldable pub find_by_code : Faults → String → Db → Result PromoCode × Db
find_by_code faults code db =
    statement (faults find_promo) (found (first (λ p. str_eq p.code code) db.promos), db) db

unfoldable pub find_by_id : Faults → ℕ → Db → Result PromoCode × Db
find_by_id faults id db =
    statement (faults find_promo) (found (first (λ p. p.id == id) db.promos), db) db

-- The rows of the two forms of the UPDATE: below the limit, or every row with the id.
abbrev pub countable : ℕ → ℤ → PromoCode → Bool
countable id max_uses p =
    p.id == id && (if ltb_ℤ (pos 0) max_uses then ltb_ℤ p.uses_count max_uses else true)

abbrev pub count_use : PromoCode → PromoCode
count_use p = record p { uses_count = p.uses_count +ℤ pos 1 }

unfoldable pub increment_uses : Faults → ℕ → ℤ → Db → Result Bool × Db
increment_uses faults id max_uses db =
    let rows = countable id max_uses in
    statement (faults increment_uses_stmt)
      (
        ok (if ltb_ℤ (pos 0) max_uses then exists rows db.promos else true),
        record db { promos = update_where rows count_use db.promos },
      )
      db
