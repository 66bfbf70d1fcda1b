-- ===== src/PluginHost/Graph/Start.antt =====
-- host.go: the state in which `Graph` enters its last loop.
use xraytool_go.Prelude.{
  ℕ, ◌+◌, ◌≤◌, ◌<◌, ◌≡◌, refl, sym, ap, ◌∙◌, ◌⊎◌, inl, inr, some, List, [], ◌∷◌, map, String, arith,
  keep, length, str_eq, str_eq_sound, if◌then◌else◌, Bool-cases,
}
use xraytool_go.Prelude.Int.{ℤ, pos, eqb_ℤ}
use xraytool_go.GoLib.{GoLib}
use xraytool_go.Result.{ok}
use xraytool_go.PluginHost.{PluginMetadata}
use xraytool_go.PluginHost.Graph.{
  Declared, Waits, publisher_of, declare_all, add_all, nothing_declared, no_waits, sorted_edges,
  ready_at_first, mandatory_first, run,
}
use xraytool_go.PluginHost.Graph.Names.{count, count-sort, count-mandatory_first}
use xraytool_go.PluginHost.Graph.Waiting.{waits}
use xraytool_go.PluginHost.Graph.Declarations.{AllDeclared, declare_all-AllDeclared, names_of}
use xraytool_go.PluginHost.Graph.Requirements.{
  AddsAll, add_all-AddsAll, waits-zero, Requires, Requires-named,
}
use xraytool_go.PluginHost.Graph.Invariant.{IsGraph, IsRound, kahn-IsRound}

pub length-names_of : (ms : List PluginMetadata) → length (names_of ms) ≡ length ms
length-names_of [] = refl
length-names_of (m ∷ ms) = omega (arith, length-names_of ms)

count-ready :
    (degree : String → ℤ) (c : String) (ms : List PluginMetadata)
    → count c (map (λ m. m.name) (keep (λ m. eqb_ℤ (degree m.name) (pos 0)) ms))
      ≡ (if eqb_ℤ (degree c) (pos 0) then count c (names_of ms) else 0)
count-ready degree c [] = ground arith
count-ready degree c (m ∷ ms) = elim (Bool-cases (str_eq m.name c)) [
  | inl e ↦
      let same : degree m.name ≡ degree c = ap degree (str_eq_sound m.name c e) in
      ground (arith, count-ready degree c ms)
  | inr e ↦ ground (arith, count-ready degree c ms)
]

waits-sorted :
    (w : Waits) (ps order : List String) (c : String)
    → waits (sorted_edges w) ps order c ≡ waits w.reverse_edges ps order c
waits-sorted w [] order c = refl
waits-sorted w (p ∷ ps) order c =
    ground (arith, count-sort c (w.reverse_edges p), waits-sorted w ps order c)

-- Both loops over the enabled plugins have succeeded.
pub record IsPrepared (lib : GoLib) (metas : List PluginMetadata) (st : Declared) (w : Waits)
    : Type 0 where
  pub declared : declare_all lib metas nothing_declared ≡ ok st
  pub required : add_all lib st.published metas no_waits ≡ ok w

module _ (lib : GoLib) (metas : List PluginMetadata) (st : Declared) (w : Waits)
    (h : IsPrepared lib metas st w) where
  pub all_declared : AllDeclared lib metas nothing_declared st
  all_declared = declare_all-AllDeclared lib metas nothing_declared st h.declared

  pub distinct_names : (c : String) → count c (names_of metas) ≤ 1
  distinct_names c =
      omega (arith, all_declared.counted c, all_declared.distinct (λ k. omega arith) c)

  pub publisher_named :
      (s p : String) → publisher_of s st.published ≡ some p → count p (names_of metas) ≡ 1
  publisher_named s p e = named (all_declared.owned s p e)
    where
      named :
          (0 < count p (names_of metas)) ⊎ (publisher_of s [] ≡ some p)
          → count p (names_of metas) ≡ 1
      named (inl k) = omega (arith, distinct_names p)
      named (inr k) = cc

  pub all_added : AddsAll st.published (names_of metas) metas no_waits w
  all_added =
      add_all-AddsAll lib st.published (names_of metas) publisher_named metas no_waits w
        distinct_names (λ c p k. refl) h.required

  pub edge-Requires :
      (c p : String) → 0 < count c (sorted_edges w p) → Requires st.published metas c p
  edge-Requires c p k = known (all_added.why c p (omega (arith, count-sort c (w.reverse_edges p))))
    where
      known : Requires st.published metas c p ⊎ (0 < 0) → Requires st.published metas c p
      known (inl r) = r
      known (inr z) = absurd (omega arith)

  pub sorted_edges-IsGraph : IsGraph (sorted_edges w) (names_of metas)
  sorted_edges-IsGraph = record {
    distinct = distinct_names;
    closed = λ p c k. Requires-named st.published metas c p (edge-Requires c p k);
  }

  pub degrees : (c : String) → w.in_degree c ≡ pos (waits (sorted_edges w) (names_of metas) [] c)
  degrees c =
      all_added.counted
        (λ k. ap pos (sym (waits-zero no_waits.reverse_edges (names_of metas) k (λ p. refl)))) c
      ∙ ap pos (sym (waits-sorted w (names_of metas) [] c))

  pub first_ready :
      (c : String)
      → count c (mandatory_first st.mandatory_name (ready_at_first metas w))
        ≡ (if eqb_ℤ (w.in_degree c) (pos 0) then count c (names_of metas) else 0)
  first_ready c =
      count-mandatory_first c st.mandatory_name (ready_at_first metas w)
      ∙ count-sort c (map (λ m. m.name) (keep (λ m. eqb_ℤ (w.in_degree m.name) (pos 0)) metas))
      ∙ count-ready w.in_degree c metas

  start-IsRound :
      IsRound
        (sorted_edges w)
        (names_of metas)
        (mandatory_first st.mandatory_name (ready_at_first metas w))
        w.in_degree
        []
  start-IsRound = record {
    counted = degrees;
    once = λ c. ground (arith, first_ready c);
    free = λ c k. ground (arith, first_ready c, degrees c);
    all = λ c k z. ground (arith, first_ready c, degrees c);
    placed = tt;
  }

  pub run-IsRound :
      (extra : ℕ)
      → ((degree : String → ℤ) × IsRound
            (sorted_edges w)
            (names_of metas)
            []
            degree
            (run (length metas) metas st.mandatory_name w))
        × (run (length metas + extra) metas st.mandatory_name w
            ≡ run (length metas) metas st.mandatory_name w)
  run-IsRound extra =
      kahn-IsRound (sorted_edges w) (names_of metas) sorted_edges-IsGraph (length metas) extra
        (mandatory_first st.mandatory_name (ready_at_first metas w)) w.in_degree [] start-IsRound
        (omega (arith, length-names_of metas))
