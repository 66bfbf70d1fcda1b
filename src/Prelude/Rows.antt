-- ===== src/Prelude/Rows.antt =====
-- Laws of the rows of a table under `update_where`, `keep`, `first` and `exists`.
use Prim.Native.Nat.{◌+◌}
use mathlib.Core.Path.{◌≡◌, refl, sym, subst, ap}
use mathlib.Core.Bool.{Bool, true, false}
use mathlib.Core.List.{List, [], ◌∷◌, ◌++◌}
use mathlib.Core.Option.{Option, none, some}
use mathlib.Core.Logic.{inl, inr}
use native.Mathlib.Omega.{arith}
use xraytool_go.Prelude.Tests.{if◌then◌else◌, Bool-cases}
use xraytool_go.Prelude.Lists.{length, keep, first, exists, update_where, All}

-- A row after `UPDATE ... WHERE`.
abbrev pub updated_row {ℓ} : {A : Type ℓ} → (A → Bool) → (A → A) → A → A
updated_row p f x = if p x then f x else x

abbrev pub updated_option {ℓ} : {A : Type ℓ} → (A → Bool) → (A → A) → Option A → Option A
updated_option p f none = none
updated_option p f (some x) = some (updated_row p f x)

module _ {ℓ} {A : Type ℓ} where
  -- A search whose test the update does not change finds the same row, updated.
  pub first-update_where :
      (q p : A → Bool) (f : A → A)
      → ((x : A) → q (f x) ≡ q x)
      → (xs : List A) → first q (update_where p f xs) ≡ updated_option p f (first q xs)
  first-update_where q p f h [] = refl
  first-update_where q p f h (x ∷ xs) = ground (arith, h x, first-update_where q p f h xs)

  pub exists-update_where :
      (q p : A → Bool) (f : A → A)
      → ((x : A) → q (f x) ≡ q x)
      → (xs : List A) → exists q (update_where p f xs) ≡ exists q xs
  exists-update_where q p f h [] = refl
  exists-update_where q p f h (x ∷ xs) = ground (arith, h x, exists-update_where q p f h xs)

  pub All-update_where {κ} :
      (P : A → Type κ) (p : A → Bool) (f : A → A)
      → ((x : A) → p x ≡ true → P x → P (f x))
      → (xs : List A) → All P xs
      → All P (update_where p f xs)
  All-update_where P p f h [] a = a
  All-update_where P p f h (x ∷ xs) a = (row (p x) (h x), All-update_where P p f h xs a.1)
    where
      row : (b : Bool) → (b ≡ true → P x → P (f x)) → P (if b then f x else x)
      row true k = k refl a.0
      row false k = a.0

  pub All-append {κ} :
      (P : A → Type κ) (xs : List A) (y : A) → All P xs → P y → All P (xs ++ y ∷ [])
  All-append P [] y a h = (h, tt)
  All-append P (x ∷ xs) y a h = (a.0, All-append P xs y a.1 h)

  -- What `first` finds passes the test.
  pub first_sound : (q : A → Bool) (xs : List A) {x : A} → first q xs ≡ some x → q x ≡ true
  first_sound q [] h = cc
  first_sound q (y ∷ xs) {x} h = ground (arith, first_sound q xs {x = x})

  pub exists-first : (q : A → Bool) (xs : List A) {x : A} → first q xs ≡ some x → exists q xs ≡ true
  exists-first q [] h = cc
  exists-first q (y ∷ xs) {x} h = ground (arith, exists-first q xs {x = x})

  -- A row that one search finds makes any test that it passes hold of some row.
  pub exists-of-first :
      (q r : A → Bool) (xs : List A) (x : A) → first q xs ≡ some x → r x ≡ true → exists r xs ≡ true
  exists-of-first q r [] x h k = cc
  exists-of-first q r (y ∷ xs) x h k = elim (Bool-cases (q y)) [
    | inl e ↦
        (let same : y ≡ x = ground arith in
          let passes : r y ≡ true = subst (λ z. r z ≡ true) (sym same) k in rw passes)
    | inr e ↦ ground (arith, exists-of-first q r xs x)
  ]

  pub All-first {κ} :
      (P : A → Type κ) (q : A → Bool) (xs : List A) {x : A} → All P xs → first q xs ≡ some x → P x
  All-first P q [] a h = cc
  All-first P q (y ∷ xs) {x} a h = go (q y) (All-first P q xs a.1) h
    where
      go :
          (b : Bool)
          → (first q xs ≡ some x → P x)
          → (if b then some y else first q xs) ≡ some x
          → P x
      go true rest e = let same : y ≡ x = cc in subst P same a.0
      go false rest e = rest e

  pub length-keep-append :
      (q : A → Bool) (xs : List A) (y : A)
      → length (keep q (xs ++ y ∷ [])) ≡ length (keep q xs) + (if q y then 1 else 0)
  length-keep-append q [] y = ground arith
  length-keep-append q (x ∷ xs) y = ground (arith, length-keep-append q xs y)

  pub length-keep-update_where :
      (q p : A → Bool) (f : A → A)
      → ((x : A) → q (f x) ≡ q x)
      → (xs : List A) → length (keep q (update_where p f xs)) ≡ length (keep q xs)
  length-keep-update_where q p f h [] = refl
  length-keep-update_where q p f h (x ∷ xs) =
      ground (arith, h x, length-keep-update_where q p f h xs)

  pub exists-append_last :
      (p : A → Bool) (xs : List A) (y : A) → p y ≡ true → exists p (xs ++ y ∷ []) ≡ true
  exists-append_last p [] y h = ground arith
  exists-append_last p (x ∷ xs) y h = ground (arith, exists-append_last p xs y h)

  pub keep-append : (p : A → Bool) (xs ys : List A) → keep p (xs ++ ys) ≡ keep p xs ++ keep p ys
  keep-append p [] ys = refl
  keep-append p (x ∷ xs) ys = ground (arith, keep-append p xs ys)

  pub append_nil : (xs : List A) → xs ≡ xs ++ []
  append_nil [] = refl
  append_nil (x ∷ xs) = ap (λ l. x ∷ l) (append_nil xs)

  pub append_assoc : (xs ys zs : List A) → (xs ++ ys) ++ zs ≡ xs ++ (ys ++ zs)
  append_assoc [] ys zs = refl
  append_assoc (x ∷ xs) ys zs = ap (λ l. x ∷ l) (append_assoc xs ys zs)

  -- A test that implies another keeps the same rows of what the other keeps.
  pub keep-keep :
      (p q : A → Bool)
      → ((x : A) → p x ≡ true → q x ≡ true)
      → (xs : List A) → keep p (keep q xs) ≡ keep p xs
  keep-keep p q h [] = refl
  keep-keep p q h (x ∷ xs) = ground (arith, h x, keep-keep p q h xs)

  pub All-drop_last {κ} : (P : A → Type κ) (xs : List A) (y : A) → All P (xs ++ y ∷ []) → All P xs
  All-drop_last P [] y h = tt
  All-drop_last P (x ∷ xs) y h = (h.0, All-drop_last P xs y h.1)
