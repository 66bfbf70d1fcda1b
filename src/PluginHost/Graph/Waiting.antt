-- ===== src/PluginHost/Graph/Waiting.antt =====
-- host.go: for how many services a plugin waits when some plugins are ordered.
use xraytool_go.Prelude.{
  ℕ, ◌+◌, ◌<◌, ◌≡◌, refl, sym, subst, ap, ◌∙◌, List, [], ◌∷◌, ◌++◌, String, arith, str_eq, eq_iff,
  str_eq_refl, str_eq_sound, if◌then◌else◌, Bool-cases, inl, inr, leb, append_assoc, append_nil,
}
use xraytool_go.PluginHost.Graph.Names.{count, count-append}

module _ (edges : String → List String) where
  -- The services from those of the plugins that are not in the order.
  abbrev pub waits : List String → List String → String → ℕ
  waits [] order c = 0
  waits (p ∷ ps) order c =
      (if leb 1 (count p order) then 0 else count c (edges p)) + waits ps order c

  waits-absent :
      (ps order : List String) (x c : String)
      → count x ps ≡ 0
      → waits ps (order ++ x ∷ []) c ≡ waits ps order c
  waits-absent [] order x c h = refl
  waits-absent (p ∷ ps) order x c h =
      ground
        (arith, eq_iff p x, eq_iff x p, count-append p order (x ∷ []), waits-absent ps order x c)

  -- A plugin that joins the order takes its services away.
  pub waits-step :
      (ps order : List String) (x c : String)
      → count x ps ≡ 1
      → count x order ≡ 0
      → waits ps order c ≡ waits ps (order ++ x ∷ []) c + count c (edges x)
  waits-step [] order x c h o = absurd (omega arith)
  waits-step (p ∷ ps) order x c h o = elim (Bool-cases (str_eq p x)) [
    | inl e ↦
        let same : p ≡ x = str_eq_sound p x e in
        let here : count p order ≡ 0 = ap (λ (k : String). count k order) same ∙ o in
        let cost : count c (edges p) ≡ count c (edges x) =
          ap (λ (k : String). count c (edges k)) same in
        ground (arith, eq_iff x p, count-append p order (x ∷ []), waits-absent ps order x c)
    | inr e ↦
        ground
          (arith, eq_iff p x, eq_iff x p, count-append p order (x ∷ []), waits-step ps order x c)
  ]

  -- Who waits for nothing has all its publishers in the order.
  pub waits-none :
      (ps order : List String) (p c : String)
      → waits ps order c ≡ 0
      → 0 < count p ps
      → 0 < count c (edges p)
      → 0 < count p order
  waits-none [] order p c h i e = absurd (omega arith)
  waits-none (q ∷ ps) order p c h i e = elim (Bool-cases (str_eq q p)) [
    | inl s ↦
        let same : q ≡ p = str_eq_sound q p s in
        let cost : count c (edges q) ≡ count c (edges p) =
          ap (λ (k : String). count c (edges k)) same in
        let here : count q order ≡ count p order = ap (λ (k : String). count k order) same in
        ground arith
    | inr s ↦ ground (arith, waits-none ps order p c)
  ]

  -- Who waits has a publisher that is not in the order.
  pub waits-some :
      (ps order : List String) (c : String)
      → 0 < waits ps order c
      → (p : String) × (0 < count p ps) × (count p order ≡ 0) × (0 < count c (edges p))
  waits-some [] order c h = absurd (omega arith)
  waits-some (p ∷ ps) order c h = elim (Bool-cases (leb 1 (count p order))) [
    | inl ordered ↦
        let rest = waits-some ps order c (ground arith) in
        (rest.0, omega (arith, rest.1), rest.2, rest.3)
    | inr not_yet ↦ elim (Bool-cases (leb 1 (count c (edges p)))) [
      | inl waiting ↦ (p, ground (arith, str_eq_refl p), ground arith, ground arith)
      | inr other ↦
          let rest = waits-some ps order c (ground arith) in
          (rest.0, omega (arith, rest.1), rest.2, rest.3)
    ]
  ]

  -- Each plugin of the list stands behind those of `ns` that publish to it.
  abbrev pub Placed : List String → List String → List String → Type 0
  Placed ns done [] = Unit
  Placed ns done (c ∷ rest) =
      ((p : String) → 0 < count p ns → 0 < count c (edges p) → 0 < count p done)
      × Placed ns (done ++ c ∷ []) rest

  pub Placed-append :
      (ns done xs : List String) (c : String)
      → Placed ns done xs
      → ((p : String) → 0 < count p ns → 0 < count c (edges p) → 0 < count p (done ++ xs))
      → Placed ns done (xs ++ c ∷ [])
  Placed-append ns done [] c h k = (
    subst
        (λ (l : List String). (p : String) → 0 < count p ns → 0 < count c (edges p) → 0 < count p l)
        (sym (append_nil done)) k,
    tt,
  )
  Placed-append ns done (x ∷ xs) c h k = (
    h.0,
    Placed-append ns (done ++ x ∷ []) xs c h.1 (
        subst
          (λ (l : List String).
            (p : String) → 0 < count p ns → 0 < count c (edges p) → 0 < count p l)
          (sym (append_assoc done (x ∷ []) xs)) k),
  )
