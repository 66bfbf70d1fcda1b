-- ===== src/Prelude/Count.antt =====
-- How often a text stands in a list.
use Prim.Native.Nat.{ℕ, suc, ◌+◌, ◌≤◌, ◌<◌}
use Prim.Native.String.{String}
use mathlib.Core.Path.{◌≡◌, refl}
use mathlib.Core.List.{List, [], ◌∷◌, ◌++◌}
use native.Mathlib.Omega.{arith}
use text.Mathlib.TextEquality.{eq_iff}
use xraytool_go.Prelude.Tests.{if◌then◌else◌, str_eq, str_eq_refl, leb}
use xraytool_go.Prelude.Lists.{length, exists}

abbrev pub without_first : String → List String → List String
without_first name [] = []
without_first name (x ∷ xs) =
    let rest = without_first name xs in if str_eq x name then xs else x ∷ rest

abbrev pub count : String → List String → ℕ
count c [] = 0
count c (x ∷ xs) = (if str_eq x c then 1 else 0) + count c xs

pub count-append : (c : String) (xs ys : List String) → count c (xs ++ ys) ≡ count c xs + count c ys
count-append c [] ys = omega arith
count-append c (x ∷ xs) ys = omega (arith, count-append c xs ys)

pub exists-count : (c : String) (xs : List String) → exists (str_eq c) xs ≡ leb 1 (count c xs)
exists-count c [] = refl
exists-count c (x ∷ xs) = ground (arith, eq_iff c x, eq_iff x c, exists-count c xs)

pub count-without_first :
    (c x : String) (xs : List String)
    → 0 < count x xs
    → count c xs ≡ (if str_eq x c then 1 else 0) + count c (without_first x xs)
count-without_first c x [] h = absurd (omega arith)
count-without_first c x (y ∷ ys) h =
    ground (arith, eq_iff y x, eq_iff y c, eq_iff x c, count-without_first c x ys)

length-without_first :
    (x : String) (xs : List String) → 0 < count x xs → length xs ≡ suc (length (without_first x xs))
length-without_first x [] h = absurd (omega arith)
length-without_first x (y ∷ ys) h = ground (arith, length-without_first x ys)

smaller :
    (x : String) (xs ys : List String)
    → ((c : String) → count c (x ∷ xs) ≤ count c ys)
    → (0 < count x ys) × ((c : String) → count c xs ≤ count c (without_first x ys))
smaller x xs ys h =
    let present : 0 < count x ys = ground (arith, h x, str_eq_refl x) in
    (present, λ c. omega (arith, h c, count-without_first c x ys present))

-- A list that has nothing more often than another is not longer.
pub length_le :
    (xs ys : List String) → ((c : String) → count c xs ≤ count c ys) → length xs ≤ length ys
length_le [] ys h = omega arith
length_le (x ∷ xs) ys h =
    let s = smaller x xs ys h in
    omega (arith, length-without_first x ys s.0, length_le xs (without_first x ys) s.1)

-- If it is as long, it has everything as often.
pub count_eq :
    (xs ys : List String)
    → ((c : String) → count c xs ≤ count c ys)
    → length ys ≤ length xs
    → (c : String) → count c xs ≡ count c ys
count_eq [] [] h l c = refl
count_eq [] (y ∷ ys) h l c = absurd (omega arith)
count_eq (x ∷ xs) ys h l c =
    let s = smaller x xs ys h in
    omega (
      arith,
      count_eq xs (without_first x ys) s.1 (omega (arith, length-without_first x ys s.0)) c,
      count-without_first c x ys s.0,
    )
