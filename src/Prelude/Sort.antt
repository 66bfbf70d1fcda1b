-- ===== src/Prelude/Sort.antt =====
-- Go's order of texts, and sorting.
use Prim.Native.Char.{code}
use Prim.Native.String.{String}
use mathlib.Core.Bool.{Bool, true, false}
use mathlib.Core.List.{List, [], ◌∷◌}
use xraytool_go.Prelude.Tests.{ltb, ◌==◌, if◌then◌else◌}

-- Go's `<` on texts: by code points, which orders UTF-8 as its bytes do.
abbrev pub str_ltb : String → String → Bool
str_ltb String.[] String.[] = false
str_ltb String.[] (String.◌∷◌ d t) = true
str_ltb (String.◌∷◌ c s) String.[] = false
str_ltb (String.◌∷◌ c s) (String.◌∷◌ d t) =
    let rest = str_ltb s t in if code c == code d then rest else ltb (code c) (code d)

module _ {ℓ} {A : Type ℓ} where
  -- A sort that keeps the order of equal items; sort.Slice may order them in any way.
  abbrev pub insert_by : (A → A → Bool) → A → List A → List A
  insert_by less x [] = x ∷ []
  insert_by less x (y ∷ ys) =
      let rest = insert_by less x ys in if less y x then y ∷ rest else x ∷ y ∷ ys

  abbrev pub sort_by : (A → A → Bool) → List A → List A
  sort_by less [] = []
  sort_by less (x ∷ xs) = insert_by less x (sort_by less xs)

abbrev pub sort_strings : List String → List String
sort_strings = sort_by str_ltb
