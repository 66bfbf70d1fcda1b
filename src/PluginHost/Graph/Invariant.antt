-- ===== src/PluginHost/Graph/Invariant.antt =====
-- host.go: what holds at each round of the loop of `Graph`.
use xraytool_go.Prelude.{
  ℕ, zero, suc, ◌+◌, ◌-◌, ◌≤◌, ◌<◌, ◌≡◌, refl, ap, ◌∙◌, List, [], ◌∷◌, ◌++◌, String, arith, length,
  length-append, str_eq, str_eq_refl, if◌then◌else◌, append_nil, append_assoc,
}
use xraytool_go.Prelude.Int.{ℤ, pos}
use xraytool_go.PluginHost.{sort_strings}
use xraytool_go.PluginHost.Graph.{kahn, release}
use xraytool_go.PluginHost.Graph.Names.{count, count-append, count-sort, length_le}
use xraytool_go.PluginHost.Graph.Waiting.{waits, waits-step, waits-none, Placed, Placed-append}
use xraytool_go.PluginHost.Graph.Kahn.{gain, release_lem}

-- The names are distinct and hold every consumer.
pub record IsGraph (edges : String → List String) (ns : List String) : Type 0 where
  pub distinct : (c : String) → count c ns ≤ 1
  pub closed : (p c : String) → 0 < count c (edges p) → 0 < count c ns

pub record IsRound (edges : String → List String) (ns ready : List String) (degree : String → ℤ)
    (order : List String) : Type 0 where
  pub counted : (c : String) → degree c ≡ pos (waits edges ns order c)
  pub once : (c : String) → count c ready + count c order ≤ count c ns
  pub free : (c : String) → 0 < count c ready + count c order → waits edges ns order c ≡ 0
  pub all :
      (c : String) → 0 < count c ns → waits edges ns order c ≡ 0 → 0 < count c ready + count c order
  pub placed : Placed edges ns [] order

module _ (edges : String → List String) (ns : List String) (g : IsGraph edges ns) where
  module _ (current : String) (ready : List String) (degree : String → ℤ) (order : List String)
      (i : IsRound edges ns (current ∷ ready) degree order) where
    present : (count current ns ≡ 1) × (count current order ≡ 0)
    present = ground (arith, i.once current, g.distinct current, str_eq_refl current)

    step :
        (c : String)
        → waits edges ns order c
          ≡ waits edges ns (order ++ current ∷ []) c + count c (edges current)
    step c = waits-step edges ns order current c present.0 present.1

    released :
        (c : String)
        → ((release (edges current) degree ready).1 c
            ≡ pos (waits edges ns order c - count c (edges current)))
          × (count c (release (edges current) degree ready).0
              ≡ count c ready + gain (count c (edges current)) (waits edges ns order c))
    released c =
        release_lem (edges current) degree (waits edges ns order) ready i.counted
          (λ x. omega (arith, step x)) c

    ready_count :
        (c : String)
        → count c (sort_strings (release (edges current) degree ready).0)
          ≡ count c ready + gain (count c (edges current)) (waits edges ns order c)
    ready_count c = count-sort c (release (edges current) degree ready).0 ∙ (released c).1

    order_count :
        (c : String)
        → count c (order ++ current ∷ []) ≡ count c order + (if str_eq current c then 1 else 0)
    order_count c = ground (arith, count-append c order (current ∷ []))

    next_once :
        (c : String)
        → count c (sort_strings (release (edges current) degree ready).0)
            + count c (order ++ current ∷ [])
          ≤ count c ns
    next_once c =
        ground (arith, ready_count c, order_count c, i.once c, i.free c, g.closed current c)

    next_free :
        (c : String)
        → 0
          < count c (sort_strings (release (edges current) degree ready).0)
            + count c (order ++ current ∷ [])
        → waits edges ns (order ++ current ∷ []) c ≡ 0
    next_free c h = ground (arith, ready_count c, order_count c, i.free c, step c)

    next_all :
        (c : String)
        → 0 < count c ns
        → waits edges ns (order ++ current ∷ []) c ≡ 0
        → 0
          < count c (sort_strings (release (edges current) degree ready).0)
            + count c (order ++ current ∷ [])
    next_all c h z = ground (arith, ready_count c, order_count c, i.all c, step c)

    pub next-IsRound :
        IsRound edges ns
          (sort_strings (release (edges current) degree ready).0)
          (release (edges current) degree ready).1
          (order ++ current ∷ [])
    next-IsRound = record {
      counted = λ c. (released c).0 ∙ ap pos (omega (arith, step c));
      once = next_once;
      free = next_free;
      all = next_all;
      placed = Placed-append edges ns [] order current i.placed (λ p n e.
          waits-none edges ns order p current (i.free current (ground (arith, str_eq_refl current)))
            n e);
    }

  kahn-ended :
      (fuel : ℕ) (degree : String → ℤ) (order : List String)
      → kahn edges fuel [] degree order ≡ order
  kahn-ended zero degree order = refl
  kahn-ended (suc fuel) degree order = refl

  -- With fuel for the plugins that are left the loop ends with none ready, and more fuel changes
  -- nothing.
  pub kahn-IsRound :
      (fuel extra : ℕ) (ready : List String) (degree : String → ℤ) (order : List String)
      → IsRound edges ns ready degree order
      → length ns ≤ length order + fuel
      → ((degree' : String → ℤ) × IsRound edges ns [] degree' (kahn edges fuel ready degree order))
        × (kahn edges (fuel + extra) ready degree order ≡ kahn edges fuel ready degree order)
  kahn-IsRound zero extra [] degree order i l = ((degree, i), kahn-ended (0 + extra) degree order)
  kahn-IsRound zero extra (x ∷ ready) degree order i l = absurd (
      omega (
        arith,
        length-append (x ∷ ready) order,
        length_le ((x ∷ ready) ++ order) ns
            (λ c. omega (arith, count-append c (x ∷ ready) order, i.once c)),
      ))
  kahn-IsRound (suc fuel) extra [] degree order i l =
      ((degree, i), kahn-ended (suc fuel + extra) degree order)
  kahn-IsRound (suc fuel) extra (x ∷ ready) degree order i l =
      let rest =
        kahn-IsRound fuel extra (sort_strings (release (edges x) degree ready).0)
          (release (edges x) degree ready).1 (order ++ x ∷ []) (next-IsRound x ready degree order i)
          (omega (arith, length-append order (x ∷ []))) in
      let more : suc fuel + extra ≡ suc (fuel + extra) = omega arith in
      (rest.0, ap (λ (n : ℕ). kahn edges n (x ∷ ready) degree order) more ∙ rest.1)

  -- The order begins with what it had.
  pub kahn-extends :
      (fuel : ℕ) (ready : List String) (degree : String → ℤ) (order : List String)
      → (rest : List String) × (kahn edges fuel ready degree order ≡ order ++ rest)
  kahn-extends zero ready degree order = ([], append_nil order)
  kahn-extends (suc fuel) [] degree order = ([], append_nil order)
  kahn-extends (suc fuel) (x ∷ ready) degree order =
      let more =
        kahn-extends fuel (sort_strings (release (edges x) degree ready).0)
          (release (edges x) degree ready).1 (order ++ x ∷ []) in
      (x ∷ more.0, more.1 ∙ append_assoc order (x ∷ []) more.0)
