-- ===== src/Database/Keeps.antt =====
-- Relations between the database before and after an action, one rule for each way to build it.
use xraytool_go.Prelude.{Bool, true, false}
use xraytool_go.Result.{Result, ok, err}
use xraytool_go.Database.Tables.{Db, transaction, end_transaction, continue, ◌>>=◌}

-- Whatever the action returns, it takes each database to a related one.
pub record Keeps {ℓ} {A : Type ℓ} (R : Db → Db → Type 0) (m : Db → Result A × Db) : Type 0 where
  pub at : (db : Db) → R db (m db).1

module _ {R : Db → Db → Type 0} (R-refl : (db : Db) → R db db)
    (R-trans : (a b c : Db) → R a b → R b c → R a c) where
  after {ℓ κ} :
      {A : Type ℓ} {B : Type κ} (r : Result A) (a b : Db) (f : A → Db → Result B × Db)
      → R a b
      → ((x : A) → Keeps R (f x))
      → R a (continue (r, b) f).1
  after (ok x) a b f h k = R-trans a b (f x b).1 h ((k x).at b)
  after (err e) a b f h k = h

  pub Keeps-bind {ℓ κ} :
      {A : Type ℓ} {B : Type κ} (m : Db → Result A × Db) (f : A → Db → Result B × Db)
      → Keeps R m
      → ((x : A) → Keeps R (f x))
      → Keeps R (m >>= f)
  Keeps-bind m f km kf = record { at = λ db. after (m db).0 db (m db).1 f (km.at db) kf }

  ended {ℓ} :
      {A : Type ℓ} (r : Result A) (refused : Bool) (a b : Db)
      → R a b
      → R a (end_transaction refused a (r, b)).1
  ended (ok x) true a b h = R-refl a
  ended (ok x) false a b h = h
  ended (err e) refused a b h = R-refl a

  pub Keeps-transaction {ℓ} :
      {A : Type ℓ} (refused : Bool) (m : Db → Result A × Db)
      → Keeps R m
      → Keeps R (transaction refused m)
  Keeps-transaction refused m k = record { at = λ db. ended (m db).0 refused db (m db).1 (k.at db) }
