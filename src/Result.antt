-- ===== src/Result.antt =====
-- Go's `(value, error)` pairs. An error is its sentinel or the message that it is made with.
use xraytool_go.Prelude.{Bool, true, false, String}

pub data Error : Type 0 where
  -- domain.ErrNotFound and domain.ErrDuplicate
  not_found duplicate : Error
  -- any other failure of a statement, which the driver reports
  db_error : Error
  -- the sentinels of billing/service.go
  user_not_found promo_limit_reached promo_already_used invalid_plan_id : Error
  -- pricing_default.ErrPlanSnapshotRequired
  plan_snapshot_required : Error
  -- errors that are made in place
  message : String → Error

pub data Result {ℓ} (A : Type ℓ) : Type ℓ where
  ok : A → Result A
  err : Error → Result A

abbrev pub is_ok {ℓ} : {A : Type ℓ} → Result A → Bool
is_ok (ok _) = true
is_ok (err _) = false
