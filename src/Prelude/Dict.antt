-- ===== src/Prelude/Dict.antt =====
-- Go's maps from texts as association lists, with the laws of their operations.
use Prim.Native.Nat.{ℕ, ◌+◌, ◌≤◌}
use Prim.Native.String.{String}
use mathlib.Core.Path.{◌≡◌, refl}
use mathlib.Core.Bool.{Bool}
use mathlib.Core.List.{List, [], ◌∷◌}
use mathlib.Core.Option.{Option, none, some}
use mathlib.Core.Logic.{inl, inr}
use native.Mathlib.Omega.{arith}
use text.Mathlib.TextEquality.{eq_iff}
use xraytool_go.Prelude.Tests.{if◌then◌else◌, str_eq, Bool-cases}
use xraytool_go.Prelude.Lists.{keep}

abbrev pub Dict {ℓ} : Type ℓ → Type ℓ
Dict V = List (String × V)

module _ {ℓ} {V : Type ℓ} where
  abbrev pub lookup : String → Dict V → Option V
  lookup k [] = none
  lookup k ((j, v) ∷ d) = if str_eq j k then some v else lookup k d

  abbrev pub erase : String → Dict V → Dict V
  erase k [] = []
  erase k ((j, v) ∷ d) = let rest = erase k d in if str_eq j k then rest else (j, v) ∷ rest

  abbrev pub insert : String → V → Dict V → Dict V
  insert k v d = (k, v) ∷ erase k d

  -- How often a key stands in the list.
  abbrev pub occurs : String → Dict V → ℕ
  occurs k [] = 0
  occurs k ((j, v) ∷ d) = (if str_eq j k then 1 else 0) + occurs k d

  abbrev pub IsDict : Dict V → Type 0
  IsDict d = (k : String) → occurs k d ≤ 1

  abbrev pub kept_if : (V → Bool) → Option V → Option V
  kept_if p none = none
  kept_if p (some v) = if p v then some v else none

  pub lookup-erase :
      (k j : String) (d : Dict V) → lookup j (erase k d) ≡ (if str_eq k j then none else lookup j d)
  lookup-erase k j [] = ground arith
  lookup-erase k j ((i, v) ∷ d) =
      ground (arith, eq_iff k j, eq_iff i k, eq_iff i j, lookup-erase k j d)

  occurs-erase :
      (k j : String) (d : Dict V) → occurs j (erase k d) ≡ (if str_eq k j then 0 else occurs j d)
  occurs-erase k j [] = ground arith
  occurs-erase k j ((i, v) ∷ d) =
      ground (arith, eq_iff k j, eq_iff i k, eq_iff i j, occurs-erase k j d)

  pub insert-IsDict : (k : String) (v : V) (d : Dict V) → IsDict d → IsDict (insert k v d)
  insert-IsDict k v d h j = ground (arith, occurs-erase k j d, h j)

  pub erase-IsDict : (k : String) (d : Dict V) → IsDict d → IsDict (erase k d)
  erase-IsDict k d h j = ground (arith, occurs-erase k j d, h j)

  pub lookup-none : (k : String) (d : Dict V) → occurs k d ≡ 0 → lookup k d ≡ none
  lookup-none k [] h = refl
  lookup-none k ((j, v) ∷ d) h = ground (arith, lookup-none k d)

  pub tail-IsDict : (j : String) (v : V) (d : Dict V) → IsDict ((j, v) ∷ d) → IsDict d
  tail-IsDict j v d h k = ground (arith, h k)

  -- What a filter on the values leaves of a map without repeated keys.
  pub lookup-keep :
      (p : V → Bool) (k : String) (d : Dict V)
      → IsDict d
      → lookup k (keep (λ e. p e.1) d) ≡ kept_if p (lookup k d)
  lookup-keep p k [] h = refl
  lookup-keep p k ((j, v) ∷ d) h = elim (Bool-cases (str_eq j k)) [
    | inl e ↦
        let gone : lookup k d ≡ none = lookup-none k d (ground (arith, h k)) in
        ground (arith, lookup-keep p k d (tail-IsDict j v d h))
    | inr e ↦ ground (arith, lookup-keep p k d (tail-IsDict j v d h))
  ]

  pub occurs-keep :
      (p : V → Bool) (k : String) (d : Dict V) → occurs k (keep (λ e. p e.1) d) ≤ occurs k d
  occurs-keep p k [] = omega arith
  occurs-keep p k ((j, v) ∷ d) = ground (arith, occurs-keep p k d)

  abbrev pub has : Option V → ℕ
  has none = 0
  has (some _) = 1

  pub occurs-lookup : (k : String) (d : Dict V) → IsDict d → occurs k d ≡ has (lookup k d)
  occurs-lookup k [] h = refl
  occurs-lookup k ((j, v) ∷ d) h = ground (arith, h k, occurs-lookup k d (tail-IsDict j v d h))
