-- ===== src/PluginHost/Graph/Requirements.antt =====
-- host.go: the second loop of `Graph`, over all the enabled plugins.
use xraytool_go.Prelude.{
  ◌≤◌, ◌<◌, ◌≡◌, refl, sym, subst, ap, ◌∙◌, ◌⊎◌, inl, inr, some, List, [], ◌∷◌, String, arith,
  str_eq, eq_iff, str_eq_refl, str_eq_sound, Bool-cases, All,
}
use xraytool_go.Prelude.Int.{pos}
use xraytool_go.GoLib.{GoLib}
use xraytool_go.Result.{Result, ok, err}
use xraytool_go.PluginHost.{PluginMetadata}
use xraytool_go.PluginHost.Graph.{Waits, publisher_of, update, then_waits, require_all, add_all}
use xraytool_go.PluginHost.Graph.Names.{count}
use xraytool_go.PluginHost.Graph.Waiting.{waits}
use xraytool_go.PluginHost.Graph.Publishers.{Published}
use xraytool_go.PluginHost.Graph.Declarations.{names_of}
use xraytool_go.PluginHost.Graph.Edges.{
  AnyRef, Meets, Meets-more, IsCounted, Adds, require_all-Adds,
}

-- A plugin of the list, of the one name, requires a service that the other publishes.
abbrev pub Requires : Published → List PluginMetadata → String → String → Type 0
Requires published [] c p = ⊥
Requires published (m ∷ ms) c p =
    ((m.name ≡ c) × AnyRef published m.requires p) ⊎ Requires published ms c p

pub Requires-named :
    (published : Published) (ms : List PluginMetadata) (c p : String)
    → Requires published ms c p
    → 0 < count c (names_of ms)
Requires-named published [] c p h = absurd h
Requires-named published (m ∷ ms) c p (inl h) = ground (arith, eq_iff m.name c, h.0)
Requires-named published (m ∷ ms) c p (inr h) = omega (arith, Requires-named published ms c p h)

-- What the requirements of all the plugins add.
pub record AddsAll (published : Published) (ns : List String) (ms : List PluginMetadata)
    (w after : Waits) : Type 0 where
  pub counted : IsCounted ns w → IsCounted ns after
  pub others :
      (c p : String)
      → count c (names_of ms) ≡ 0
      → count c (after.reverse_edges p) ≡ count c (w.reverse_edges p)
  pub meets : All (λ (m : PluginMetadata). Meets published after.reverse_edges m.name m.requires) ms
  pub why :
      (c p : String)
      → 0 < count c (after.reverse_edges p)
      → Requires published ms c p ⊎ (0 < count c (w.reverse_edges p))

-- The start of a plugin's turn.
abbrev reset : PluginMetadata → Waits → Waits
reset m w = record w { in_degree = update w.in_degree m.name (pos 0) }

pub waits-zero :
    (edges : String → List String) (ps : List String) (c : String)
    → ((p : String) → count c (edges p) ≡ 0)
    → waits edges ps [] c ≡ 0
waits-zero edges [] c h = refl
waits-zero edges (p ∷ ps) c h = omega (arith, h p, waits-zero edges ps c h)

module _ (lib : GoLib) (published : Published) (ns : List String)
    (owned : (s p : String) → publisher_of s published ≡ some p → count p ns ≡ 1) where
  -- Setting a degree that is 0 to 0 leaves the degrees right.
  reset-IsCounted :
      (name : String) (w : Waits)
      → ((p : String) → count name (w.reverse_edges p) ≡ 0)
      → IsCounted ns w
      → IsCounted ns (record w { in_degree = update w.in_degree name (pos 0) })
  reset-IsCounted name w z h c = elim (Bool-cases (str_eq name c)) [
    | inl e ↦
        let same : name ≡ c = str_eq_sound name c e in
        rw e (
          ap pos (
            sym
              (ap (waits w.reverse_edges ns []) (sym same) ∙ waits-zero w.reverse_edges ns name z)))
    | inr e ↦ rw e (h c)
  ]

  AddsAll-cons :
      (m : PluginMetadata) (ms : List PluginMetadata) (w next after : Waits)
      → count m.name (names_of ms) ≡ 0
      → ((p : String) → count m.name (w.reverse_edges p) ≡ 0)
      → Adds published ns m.name m.requires (reset m w) next
      → AddsAll published ns ms next after
      → AddsAll published ns (m ∷ ms) w after
  AddsAll-cons m ms w next after new z a rest = record {
    counted = λ k. rest.counted (a.counted (reset-IsCounted m.name w z k));
    others = λ c p k. rest.others c p (omega arith) ∙ a.others c p (ground arith);
    meets = (
      Meets-more published next.reverse_edges after.reverse_edges m.name m.requires
          (λ p. omega (arith, rest.others m.name p new)) a.meets,
      rest.meets,
    );
    why = λ c p k. reason c p (rest.why c p k);
  }
    where
      reason :
          (c p : String)
          → Requires published ms c p ⊎ (0 < count c (next.reverse_edges p))
          → Requires published (m ∷ ms) c p ⊎ (0 < count c (w.reverse_edges p))
      reason c p (inl x) = inl (inr x)
      reason c p (inr x) = elim (Bool-cases (str_eq m.name c)) [
        | inl e ↦
            let same : m.name ≡ c = str_eq_sound m.name c e in
            mine c p same
              (a.why p (subst (λ (k : String). 0 < count k (next.reverse_edges p)) (sym same) x))
        | inr e ↦ inr (omega (arith, a.others c p e))
      ]
        where
          mine :
              (c p : String)
              → m.name ≡ c
              → AnyRef published m.requires p ⊎ (0 < count m.name (w.reverse_edges p))
              → Requires published (m ∷ ms) c p ⊎ (0 < count c (w.reverse_edges p))
          mine c p same (inl y) = inl (inl (same, y))
          mine c p same (inr y) = absurd (omega (arith, z p))

  pub add_all-AddsAll :
      (ms : List PluginMetadata) (w after : Waits)
      → ((c : String) → count c (names_of ms) ≤ 1)
      → ((c p : String) → 0 < count c (names_of ms) → count c (w.reverse_edges p) ≡ 0)
      → add_all lib published ms w ≡ ok after
      → AddsAll published ns ms w after
  add_all-AddsAll [] w after d z h =
      let same : w ≡ after = cc in
      subst (AddsAll published ns [] w) same
        (record { counted = λ k. k; others = λ c p k. refl; meets = tt; why = λ c p k. inr k })
  add_all-AddsAll (m ∷ ms) w after d z h =
      let new : count m.name (names_of ms) ≡ 0 = ground (arith, d m.name, str_eq_refl m.name) in
      turn new (require_all lib published m.name [] m.requires (reset m w))
        (λ next a k.
          add_all-AddsAll ms next after (λ c. omega (arith, d c))
            (λ c p i.
              a.others c p (ground (arith, new, str_eq_sound m.name c)) ∙ z c p (omega arith))
            k)
        refl h
    where
      turn :
          count m.name (names_of ms) ≡ 0
          → (x : Result Waits)
          → ((next : Waits)
              → Adds published ns m.name m.requires (reset m w) next
              → add_all lib published ms next ≡ ok after
              → AddsAll published ns ms next after)
          → require_all lib published m.name [] m.requires (reset m w) ≡ x
          → then_waits (add_all lib published ms) x ≡ ok after
          → AddsAll published ns (m ∷ ms) w after
      turn new (err e) ih q k = cc
      turn new (ok next) ih q k =
          let a = require_all-Adds lib published ns owned m.name [] m.requires (reset m w) next q in
          AddsAll-cons m ms w next after new (λ p. z m.name p (ground (arith, str_eq_refl m.name)))
            a (ih next a k)
