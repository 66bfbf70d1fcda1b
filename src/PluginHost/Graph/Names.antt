-- ===== src/PluginHost/Graph/Names.antt =====
-- Lists of plugin names, counted.
use xraytool_go.Prelude.{Bool, ◌≡◌, refl, List, [], ◌∷◌, String, arith}
use xraytool_go.PluginHost.{insert_by, sort_by, sort_strings, str_ltb}
use xraytool_go.PluginHost.Graph.{mandatory_first}
pub use xraytool_go.Prelude.Count.{
  count, count-append, exists-count, count-without_first, length_le, count_eq,
}

count-insert :
    (less : String → String → Bool) (c x : String) (xs : List String)
    → count c (insert_by less x xs) ≡ count c (x ∷ xs)
count-insert less c x [] = refl
count-insert less c x (y ∷ ys) = ground (arith, count-insert less c x ys)

count-sort_by :
    (less : String → String → Bool) (c : String) (xs : List String)
    → count c (sort_by less xs) ≡ count c xs
count-sort_by less c [] = refl
count-sort_by less c (x ∷ xs) =
    omega (arith, count-insert less c x (sort_by less xs), count-sort_by less c xs)

pub count-sort : (c : String) (xs : List String) → count c (sort_strings xs) ≡ count c xs
count-sort c xs = count-sort_by str_ltb c xs

pub count-mandatory_first :
    (c name : String) (xs : List String) → count c (mandatory_first name xs) ≡ count c xs
count-mandatory_first c name xs =
    ground (arith, exists-count name xs, count-without_first c name xs)
