-- ===== src/PluginHost/Graph/Mandatory.antt =====
-- host.go: the mandatory plugin in `Graph`.
use xraytool_go.Prelude.{
  ℕ, suc, ◌-◌, ◌≤◌, ◌<◌, Bool, true, false, ◌≡◌, sym, subst, ap, ◌∙◌, inl, inr, List, [], ◌∷◌,
  String, arith, length, str_eq, eq_iff, str_eq_refl, Bool-cases, leb, All,
}
use xraytool_go.Prelude.Count.{without_first}
use xraytool_go.GoLib.{GoLib}
use xraytool_go.Result.{Result, ok}
use xraytool_go.PluginHost.{ServiceRef, PluginMetadata, sort_strings}
use xraytool_go.PluginHost.Graph.{
  Declared, Waits, sorted_edges, ready_at_first, mandatory_first, run, kahn, release, enabled_metas,
  graph, complete,
}
use xraytool_go.PluginHost.Graph.Names.{count, count-mandatory_first, exists-count}
use xraytool_go.PluginHost.Graph.Waiting.{waits}
use xraytool_go.PluginHost.Graph.Publishers.{Published}
use xraytool_go.PluginHost.Graph.Declarations.{names_of}
use xraytool_go.PluginHost.Graph.Edges.{AnyRef}
use xraytool_go.PluginHost.Graph.Requirements.{Requires, waits-zero}
use xraytool_go.PluginHost.Graph.Invariant.{kahn-extends}
use xraytool_go.PluginHost.Graph.Start.{
  IsPrepared, all_declared, distinct_names, edge-Requires, sorted_edges-IsGraph, degrees,
  first_ready, length-names_of,
}
use xraytool_go.PluginHost.Graph.Order.{
  All-imp, All-both, Outcome, outcome, refused_early, prepared,
}

-- What no service is required by has nobody to wait for.
no_ref :
    (published : Published) (rs : List ServiceRef) (p : String)
    → rs ≡ []
    → AnyRef published rs p
    → ⊥
no_ref published [] p e r = r
no_ref published (x ∷ rs) p e r = cc

no_requires :
    (published : Published) (ms : List PluginMetadata) (m : PluginMetadata) (p : String)
    → m.requires ≡ []
    → All (λ (x : PluginMetadata). x.name ≡ m.name → x.requires ≡ []) ms
    → Requires published ms m.name p
    → ⊥
no_requires published [] m p e h r = r
no_requires published (x ∷ ms) m p e h (inl r) = no_ref published x.requires p (h.0 r.0) r.1
no_requires published (x ∷ ms) m p e h (inr r) = no_requires published ms m p e h.1 r

-- Plugins with distinct names: the one of a name is the only one.
same_name :
    (ms : List PluginMetadata) (m : PluginMetadata)
    → count m.name (names_of ms) ≡ 0
    → All (λ (x : PluginMetadata). x.name ≡ m.name → x.requires ≡ []) ms
same_name [] m h = tt
same_name (x ∷ ms) m h =
    (λ e. absurd (ground (arith, eq_iff x.name m.name)), same_name ms m (omega arith))

only_one :
    (ms : List PluginMetadata)
    → ((c : String) → count c (names_of ms) ≤ 1)
    → All
        (λ (m : PluginMetadata).
          (0 < count m.name (names_of ms))
          × (m.requires ≡ [] → All (λ (x : PluginMetadata). x.name ≡ m.name → x.requires ≡ []) ms))
        ms
only_one [] d = tt
only_one (m ∷ ms) d =
    let new : count m.name (names_of ms) ≡ 0 = ground (arith, d m.name, str_eq_refl m.name) in
    (
      (ground (arith, str_eq_refl m.name), λ e. (λ s. e, same_name ms m new)),
      All-imp
          (λ x k. (
            omega (arith, k.0),
            λ e. (
              λ s.
                  (let twice = k.0 in
                    let named = subst (λ (n : String). count n (names_of ms) ≡ 0) s new in
                    absurd (omega arith)),
              k.1 e,
            ),
          ))
          ms (only_one ms (λ c. omega (arith, d c))),
    )

module _ (lib : GoLib) (metas : List PluginMetadata) (st : Declared) (w : Waits)
    (h : IsPrepared lib metas st w) where
  -- A plugin that requires nothing is ready at first.
  ready_alone :
      (m : PluginMetadata)
      → 0 < count m.name (names_of metas)
      → m.requires ≡ []
      → All (λ (x : PluginMetadata). x.name ≡ m.name → x.requires ≡ []) metas
      → 0 < count m.name (ready_at_first metas w)
  ready_alone m i e o =
      let none_waited : (p : String) → count m.name (sorted_edges w p) ≡ 0 = λ p.
        nobody p (λ k.
          no_requires st.published metas m p e o (edge-Requires lib metas st w h m.name p k)) in
      let free : waits (sorted_edges w) (names_of metas) [] m.name ≡ 0 =
        waits-zero (sorted_edges w) (names_of metas) m.name none_waited in
      ground (
        arith,
        first_ready lib metas st w h m.name,
        degrees lib metas st w h m.name,
        count-mandatory_first m.name st.mandatory_name (ready_at_first metas w),
      )
    where
      nobody :
          (p : String)
          → (0 < count m.name (sorted_edges w p) → ⊥)
          → count m.name (sorted_edges w p) ≡ 0
      nobody p k = elim (Bool-cases (leb 1 (count m.name (sorted_edges w p)))) [
        | inl e ↦ absurd (k (ground arith))
        | inr e ↦ ground arith
      ]

  first_of :
      (name : String) (fuel : ℕ)
      → str_eq name "" ≡ false
      → 0 < count name (ready_at_first metas w)
      → (rest : List String) × (kahn
            (sorted_edges w)
            (suc fuel)
            (mandatory_first name (ready_at_first metas w))
            w.in_degree
            []
          ≡ name ∷ rest)
  first_of name fuel e i =
      let ready = ready_at_first metas w in
      let moved : mandatory_first name ready ≡ name ∷ without_first name ready =
        ground (arith, exists-count name ready) in
      let others = release (sorted_edges w name) w.in_degree (without_first name ready) in
      let more =
        kahn-extends (sorted_edges w) (names_of metas) (sorted_edges-IsGraph lib metas st w h) fuel
          (sort_strings others.0) others.1 (name ∷ []) in
      (
        more.0,
        ap (λ (l : List String). kahn (sorted_edges w) (suc fuel) l w.in_degree []) moved ∙ more.1,
      )

  mandatory_heads :
      lib.trim_space "" ≡ ""
      → (order : List String) → run (length metas) metas st.mandatory_name w ≡ order
      → All
          (λ (m : PluginMetadata).
            m.mandatory ≡ true → (rest : List String) × (order ≡ m.name ∷ rest))
          metas
  mandatory_heads t order ran =
      All-both
        (λ m one alone o.
          let a = alone o in
          let size : length metas ≡ suc (length metas - 1) =
            omega (arith, length-names_of metas, nonempty m.name (names_of metas) one.0) in
          let ready = ready_alone m one.0 a.0 (one.1 a.0) in
          let f = first_of m.name (length metas - 1) a.2 ready in
          (
            f.0,
            sym ran
                ∙ ap (λ (n : String). run (length metas) metas n w) a.1
                ∙ ap (λ (n : ℕ). run n metas m.name w) size
                ∙ f.1,
          ))
        metas (only_one metas (distinct_names lib metas st w h))
        ((all_declared lib metas st w h).mandatory t)
    where
      nonempty : (c : String) (xs : List String) → 0 < count c xs → 0 < length xs
      nonempty c [] k = absurd (omega arith)
      nonempty c (x ∷ xs) k = omega arith

-- If trimming leaves the empty text empty, an enabled mandatory plugin is the first in the order that
-- `graph` returns with success.
pub graph-mandatory :
    (lib : GoLib) (plugins : List PluginMetadata) (enabled : String → Bool) (order : List String)
    → lib.trim_space "" ≡ ""
    → graph lib plugins enabled ≡ ok order
    → All
        (λ (m : PluginMetadata).
          m.mandatory ≡ true → (rest : List String) × (order ≡ m.name ∷ rest))
        (enabled_metas enabled plugins)
unfolding graph
graph-mandatory lib plugins enabled order t h =
    known (outcome lib (enabled_metas enabled plugins)) h
  where
    known :
        {r : Result (List String)}
        → Outcome lib (enabled_metas enabled plugins) r
        → r ≡ ok order
        → All
            (λ (m : PluginMetadata).
              m.mandatory ≡ true → (rest : List String) × (order ≡ m.name ∷ rest))
            (enabled_metas enabled plugins)
    known (refused_early e q) k = (let clash = sym q ∙ k in cc)
    known (prepared st w p q) k =
        let metas = enabled_metas enabled plugins in
        let ran = run (length metas) metas st.mandatory_name w in
        let done : complete metas ran ≡ ok order = sym q ∙ k in
        let full : ran ≡ order = ground arith in mandatory_heads lib metas st w p t order full
