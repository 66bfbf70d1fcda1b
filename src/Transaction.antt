-- ===== src/Transaction.antt =====
-- Statements and transactions on a database of any kind: gorm's `Transaction`.
use xraytool_go.Prelude.{Bool, if◌then◌else◌}
use xraytool_go.Result.{Result, ok, err, db_error}

-- A statement's effect, unless the driver refuses it.
abbrev pub statement {ℓ κ} : {A : Type ℓ} {S : Type κ} → Bool → Result A × S → S → Result A × S
statement refused done db = if refused then (err db_error, db) else done

abbrev pub end_transaction {ℓ κ} :
    {A : Type ℓ} {S : Type κ} → Bool → S → Result A × S → Result A × S
end_transaction refused before (ok a, after) =
    if refused then (err db_error, before) else (ok a, after)
end_transaction refused before (err e, _) = (err e, before)

-- A body that returns an error is rolled back, and so is one whose end is refused.
abbrev pub transaction {ℓ κ} :
    {A : Type ℓ} {S : Type κ} → Bool → (S → Result A × S) → S → Result A × S
transaction refused body db = end_transaction refused db (body db)

-- A statement inside a transaction: an error ends the body.
abbrev pub continue {ℓ κ μ} :
    {A : Type ℓ} {B : Type κ} {S : Type μ} → Result A × S → (A → S → Result B × S) → Result B × S
continue (ok a, db) f = f a db
continue (err e, db) f = (err e, db)

infixl 5 ◌>>=◌ ◌>>◌
abbrev pub ◌>>=◌ {ℓ κ μ} :
    {A : Type ℓ} {B : Type κ} {S : Type μ}
    → (S → Result A × S)
    → (A → S → Result B × S)
    → S
    → Result B × S
◌>>=◌ m f db = continue (m db) f

abbrev pub ◌>>◌ {ℓ κ μ} :
    {A : Type ℓ} {B : Type κ} {S : Type μ}
    → (S → Result A × S)
    → (S → Result B × S)
    → S
    → Result B × S
m >> k = m >>= λ _. k

abbrev pub pure {ℓ κ} : {A : Type ℓ} {S : Type κ} → A → S → Result A × S
pure a db = (ok a, db)

abbrev pub lift {ℓ κ} : {A : Type ℓ} {S : Type κ} → Result A → S → Result A × S
lift r db = (r, db)
