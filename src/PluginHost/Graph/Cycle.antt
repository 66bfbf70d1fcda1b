-- ===== src/PluginHost/Graph/Cycle.antt =====
-- host.go: `Graph` when it finds a cycle.
use xraytool_go.Prelude.{
  ◌≤◌, ◌<◌, Bool, true, ◌≡◌, sym, ap, ◌∙◌, ◌⊎◌, inl, inr, List, [], ◌∷◌, String, arith, length,
  str_eq, str_eq_refl, str_eq_sound, Bool-cases, leb,
}
use xraytool_go.GoLib.{GoLib}
use xraytool_go.Result.{Error, err}
use xraytool_go.PluginHost.{PluginMetadata}
use xraytool_go.PluginHost.Graph.{
  Declared, Waits, declare_all, nothing_declared, sorted_edges, run, enabled_metas, graph, graph_of,
  complete,
}
use xraytool_go.PluginHost.Graph.Names.{count, length_le}
use xraytool_go.PluginHost.Graph.Waiting.{waits, waits-some}
use xraytool_go.PluginHost.Graph.Declarations.{names_of}
use xraytool_go.PluginHost.Graph.Requirements.{Requires}
use xraytool_go.PluginHost.Graph.Start.{IsPrepared, distinct_names, edge-Requires, length-names_of}
use xraytool_go.PluginHost.Graph.Order.{last-IsRound, at_most}

-- A plugin that is not in the order, if there is one.
find_missing :
    (ns order : List String)
    → ((n : String) × (0 < count n ns) × (count n order ≡ 0))
      ⊎ ((n : String) → 0 < count n ns → 0 < count n order)
find_missing [] order = inr (λ n k. absurd (omega arith))
find_missing (x ∷ ns) order = elim (Bool-cases (leb 1 (count x order))) [
  | inr missing ↦ inl (x, ground (arith, str_eq_refl x), ground arith)
  | inl there ↦ rest (find_missing ns order) there
]
  where
    rest :
        ((n : String) × (0 < count n ns) × (count n order ≡ 0))
          ⊎ ((n : String) → 0 < count n ns → 0 < count n order)
        → leb 1 (count x order) ≡ true
        → ((n : String) × (0 < count n (x ∷ ns)) × (count n order ≡ 0))
          ⊎ ((n : String) → 0 < count n (x ∷ ns) → 0 < count n order)
    rest (inl f) there = inl (f.0, omega (arith, f.1), f.2)
    rest (inr f) there = inr (λ n k. elim (Bool-cases (str_eq x n)) [
      | inl e ↦
          let same : count x order ≡ count n order =
            ap (λ (k : String). count k order) (str_eq_sound x n e) in
          ground arith
      | inr e ↦ f n (ground arith)
    ])

module _ (lib : GoLib) (metas : List PluginMetadata) (st : Declared) (w : Waits)
    (h : IsPrepared lib metas st w) where
  stuck :
      (n : String)
      → 0 < count n (names_of metas)
      → count n (run (length metas) metas st.mandatory_name w) ≡ 0
      → (p : String) × (0 < count p (names_of metas))
        × (count p (run (length metas) metas st.mandatory_name w) ≡ 0)
        × Requires st.published metas n p
  stuck n i o =
      let order = run (length metas) metas st.mandatory_name w in
      let busy : 0 < waits (sorted_edges w) (names_of metas) order n =
        ground (arith, (last-IsRound lib metas st w h).1.all n i) in
      let p = waits-some (sorted_edges w) (names_of metas) order n busy in
      (p.0, p.1, p.2, edge-Requires lib metas st w h n p.0 p.3)

  missing :
      (e : Error)
      → complete metas (run (length metas) metas st.mandatory_name w) ≡ err e
      → ((n : String) × (0 < count n (names_of metas))
          × (count n (run (length metas) metas st.mandatory_name w) ≡ 0))
        ⊎ ((n : String)
            → 0 < count n (names_of metas)
            → 0 < count n (run (length metas) metas st.mandatory_name w))
      → (n : String) × (0 < count n (names_of metas))
        × (count n (run (length metas) metas st.mandatory_name w) ≡ 0)
  missing e failed (inl f) = f
  missing e failed (inr f) =
      let order = run (length metas) metas st.mandatory_name w in
      let long : length (names_of metas) ≤ length order =
        length_le (names_of metas) order
          (λ c. ground (arith, f c, distinct_names lib metas st w h c)) in
      let short : length order ≤ length (names_of metas) =
        length_le order (names_of metas) (at_most lib metas st w h) in
      let same : length order ≡ length metas = omega (arith, length-names_of metas) in ground arith

-- If both loops over the enabled plugins succeed and `graph` fails all the same, some enabled plugin is
-- not in the order that the last loop leaves, and each enabled plugin that is not in it requires a
-- service that another enabled plugin publishes that is not in it either: the plugins that are left
-- out wait for one another.
pub graph-cycle :
    (lib : GoLib) (plugins : List PluginMetadata) (enabled : String → Bool) (st : Declared)
    (w : Waits) (e : Error)
    → IsPrepared lib (enabled_metas enabled plugins) st w
    → graph lib plugins enabled ≡ err e
    → (order : List String) × ((n : String) × (0
          < count n (names_of (enabled_metas enabled plugins)))
        × (count n order ≡ 0))
      × ((n : String)
          → 0 < count n (names_of (enabled_metas enabled plugins))
          → count n order ≡ 0
          → (p : String) × (0 < count p (names_of (enabled_metas enabled plugins)))
            × (count p order ≡ 0)
            × Requires st.published (enabled_metas enabled plugins) n p)
unfolding graph
graph-cycle lib plugins enabled st w e h f =
    let metas = enabled_metas enabled plugins in
    let order = run (length metas) metas st.mandatory_name w in
    let at_end : graph_of lib metas (declare_all lib metas nothing_declared)
        ≡ complete metas order =
      rw (h.declared, h.required) in
    let failed : complete metas order ≡ err e = sym at_end ∙ f in
    (
      order,
      missing lib metas st w h e failed (find_missing (names_of metas) order),
      stuck lib metas st w h,
    )
