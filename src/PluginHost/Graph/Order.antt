-- ===== src/PluginHost/Graph/Order.antt =====
-- host.go: what `Graph` returns.
use xraytool_go.Prelude.{
  ℕ, ◌+◌, ◌≤◌, ◌<◌, Bool, true, false, ◌≡◌, refl, sym, subst, ◌∙◌, inl, inr, some, List, [], ◌∷◌,
  ◌++◌, String, arith, exists, length, str_eq, str_eq_sound, if◌then◌else◌, Bool-cases, All,
}
use xraytool_go.Prelude.Int.{ℤ}
use xraytool_go.GoLib.{GoLib}
use xraytool_go.Result.{Result, Error, ok, err}
use xraytool_go.PluginHost.{ServiceRef, PluginMetadata}
use xraytool_go.PluginHost.Graph.{
  Declared, Waits, publisher_of, declare_all, add_all, nothing_declared, no_waits, sorted_edges,
  run, enabled_metas, graph, graph_of, ordered, complete,
}
use xraytool_go.PluginHost.Graph.Names.{count, count-append, count-sort, count_eq, exists-count}
use xraytool_go.PluginHost.Graph.Waiting.{Placed}
use xraytool_go.PluginHost.Graph.Declarations.{names_of}
use xraytool_go.PluginHost.Graph.Invariant.{IsRound}
use xraytool_go.PluginHost.Graph.Start.{
  IsPrepared, all_declared, all_added, distinct_names, publisher_named, sorted_edges-IsGraph,
  run-IsRound, length-names_of,
}

-- One name stands before another.
abbrev pub is_before : String → String → List String → Bool
is_before p c [] = false
is_before p c (x ∷ xs) =
    let rest = is_before p c xs in
    if str_eq x c then false else if str_eq x p then exists (str_eq c) xs else rest

Placed-is_before :
    (edges : String → List String) (ns done order : List String) (p c : String)
    → Placed edges ns done order
    → 0 < count p ns
    → 0 < count c (edges p)
    → count p done ≡ 0
    → 0 < count c order
    → is_before p c order ≡ true
Placed-is_before edges ns done [] p c h n e z o = absurd (omega arith)
Placed-is_before edges ns done (x ∷ xs) p c h n e z o = elim (Bool-cases (str_eq x c)) [
  | inl s ↦
      let same : x ≡ c = str_eq_sound x c s in
      let early : 0 < count p done =
        h.0 p n (subst (λ (k : String). 0 < count k (edges p)) (sym same) e) in
      absurd (omega arith)
  | inr s ↦ elim (Bool-cases (str_eq x p)) [
    | inl t ↦ rw (s, t) (ground (arith, exists-count c xs))
    | inr t ↦
        rw (s, t)
          (Placed-is_before edges ns (done ++ x ∷ []) xs p c h.1 n e
            (ground (arith, count-append p done (x ∷ []))) (ground arith))
  ]
]

module _ {A : Type 0} where
  pub All-imp : {P Q : A → Type 0} → ((x : A) → P x → Q x) → (xs : List A) → All P xs → All Q xs
  All-imp f [] h = tt
  All-imp f (x ∷ xs) h = (f x h.0, All-imp f xs h.1)

  pub All-both :
      {P Q R : A → Type 0}
      → ((x : A) → P x → Q x → R x)
      → (xs : List A) → All P xs
      → All Q xs
      → All R xs
  All-both f [] h k = tt
  All-both f (x ∷ xs) h k = (f x h.0 k.0, All-both f xs h.1 k.1)

-- What a load order of the plugins is.
pub record IsLoadOrder (metas : List PluginMetadata) (order : List String) : Type 0 where
  -- the names of the plugins, each once
  pub each : (n : String) → count n order ≡ count n (names_of metas)
  pub once : (n : String) → count n order ≤ 1
  -- a plugin that publishes a service stands before each that requires the service
  pub publishers_first :
      All
        (λ (m : PluginMetadata).
          All
            (λ (r : ServiceRef).
              All
                (λ (q : PluginMetadata).
                  All
                    (λ (s : ServiceRef). s.name ≡ r.name → is_before q.name m.name order ≡ true)
                    q.publishes)
                metas)
            m.requires)
        metas

module _ (lib : GoLib) (metas : List PluginMetadata) (st : Declared) (w : Waits)
    (h : IsPrepared lib metas st w) where
  pub last-IsRound :
      (degree : String → ℤ) × IsRound
        (sorted_edges w)
        (names_of metas)
        []
        degree
        (run (length metas) metas st.mandatory_name w)
  last-IsRound = (run-IsRound lib metas st w h 0).0

  pub at_most :
      (c : String)
      → count c (run (length metas) metas st.mandatory_name w) ≤ count c (names_of metas)
  at_most c = omega (arith, last-IsRound.1.once c)

  -- An order of the full length is a load order.
  full-IsLoadOrder :
      length metas ≤ length (run (length metas) metas st.mandatory_name w)
      → IsLoadOrder metas (run (length metas) metas st.mandatory_name w)
  full-IsLoadOrder full =
      let order = run (length metas) metas st.mandatory_name w in
      let each : (n : String) → count n order ≡ count n (names_of metas) =
        count_eq order (names_of metas) at_most (omega (arith, length-names_of metas)) in
      let before : (m q : String)
          → 0 < count m (w.reverse_edges q)
          → 0 < count q (names_of metas)
          → is_before q m order ≡ true =
        λ m q e n.
          Placed-is_before (sorted_edges w) (names_of metas) [] order q m last-IsRound.1.placed n
            (omega (arith, count-sort m (w.reverse_edges q))) refl
            (omega (
              arith,
              each m,
              (sorted_edges-IsGraph lib metas st w h).closed q m
                  (omega (arith, count-sort m (w.reverse_edges q))),
            )) in
      record {
        each = each;
        once = λ n. omega (arith, each n, distinct_names lib metas st w h n);
        publishers_first =
            All-imp
              (λ m met.
                All-imp
                  (λ r waits_for.
                    All-imp
                      (λ q publishes.
                        All-imp
                          (λ s published same.
                            let by : publisher_of r.name st.published ≡ some q.name =
                              subst (λ (k : String). publisher_of k st.published ≡ some q.name) same
                                published in
                            before m.name q.name (waits_for q.name by)
                              (omega (arith, publisher_named lib metas st w h r.name q.name by)))
                          q.publishes publishes)
                      metas (all_declared lib metas st w h).own)
                  m.requires met)
              metas (all_added lib metas st w h).meets;
      }

-- When both loops over the plugins have succeeded, the last loop ends within as many rounds as there
-- are plugins: more rounds change nothing.
pub run-enough :
    (lib : GoLib) (metas : List PluginMetadata) (st : Declared) (w : Waits) (extra : ℕ)
    → IsPrepared lib metas st w
    → run (length metas + extra) metas st.mandatory_name w
      ≡ run (length metas) metas st.mandatory_name w
run-enough lib metas st w extra h = (run-IsRound lib metas st w h extra).1

-- The cases of a call of `graph`.
pub data Outcome (lib : GoLib) (metas : List PluginMetadata) (r : Result (List String))
    : Type 0 where
  refused_early : (e : Error) → r ≡ err e → Outcome lib metas r
  prepared :
      (st : Declared) (w : Waits)
      → IsPrepared lib metas st w
      → r ≡ complete metas (run (length metas) metas st.mandatory_name w)
      → Outcome lib metas r

pub outcome :
    (lib : GoLib) (metas : List PluginMetadata)
    → Outcome lib metas (graph_of lib metas (declare_all lib metas nothing_declared))
outcome lib metas = first (declare_all lib metas nothing_declared) refl
  where
    second :
        (st : Declared) (x : Result Waits)
        → declare_all lib metas nothing_declared ≡ ok st
        → add_all lib st.published metas no_waits ≡ x
        → Outcome lib metas (ordered metas st.mandatory_name x)
    second st (ok w) d q = prepared st w (record { declared = d; required = q }) refl
    second st (err e) d q = refused_early e refl

    first :
        (x : Result Declared)
        → declare_all lib metas nothing_declared ≡ x
        → Outcome lib metas (graph_of lib metas x)
    first (ok st) q = second st (add_all lib st.published metas no_waits) q refl
    first (err e) q = refused_early e refl

-- What `graph` returns with success is a load order of the enabled plugins: it holds their names, each
-- exactly once, and whenever an enabled plugin requires a service, optional or not, that an enabled
-- plugin publishes, the publisher stands before it.
pub graph-IsLoadOrder :
    (lib : GoLib) (plugins : List PluginMetadata) (enabled : String → Bool) (order : List String)
    → graph lib plugins enabled ≡ ok order
    → IsLoadOrder (enabled_metas enabled plugins) order
unfolding graph
graph-IsLoadOrder lib plugins enabled order h =
    known (outcome lib (enabled_metas enabled plugins)) h
  where
    known :
        {r : Result (List String)}
        → Outcome lib (enabled_metas enabled plugins) r
        → r ≡ ok order
        → IsLoadOrder (enabled_metas enabled plugins) order
    known (refused_early e q) k = (let clash = sym q ∙ k in cc)
    known (prepared st w p q) k =
        let metas = enabled_metas enabled plugins in
        let ran = run (length metas) metas st.mandatory_name w in
        let done : complete metas ran ≡ ok order = sym q ∙ k in
        let full : (length metas ≤ length ran) × (ran ≡ order) = ground arith in
        subst (IsLoadOrder metas) full.1 (full-IsLoadOrder lib metas st w p full.0)
