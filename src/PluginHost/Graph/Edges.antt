-- ===== src/PluginHost/Graph/Edges.antt =====
-- host.go: the second loop of `Graph`, one plugin's requirements.
use xraytool_go.Prelude.{
  ℕ, ◌+◌, ◌≤◌, ◌<◌, false, ◌≡◌, refl, sym, subst, ap, ◌∙◌, ◌⊎◌, inl, inr, Option, none, some, List,
  [], ◌∷◌, ◌++◌, String, arith, str_eq, eq_iff, str_eq_refl, str_eq_sound, if◌then◌else◌,
  Bool-cases, All,
}
use xraytool_go.Prelude.Int.{ℤ, pos, ◌+ℤ◌}
use xraytool_go.GoLib.{GoLib}
use xraytool_go.Result.{Result, ok, err}
use xraytool_go.PluginHost.{ServiceRef}
use xraytool_go.PluginHost.Graph.{
  Waits, publisher_of, update, add_edge, required, then_waits, require_all,
}
use xraytool_go.PluginHost.Graph.Names.{count, count-append}
use xraytool_go.PluginHost.Graph.Waiting.{waits}
use xraytool_go.PluginHost.Graph.Publishers.{Published}

succ_pos : (n : ℕ) → pos n +ℤ pos 1 ≡ pos (n + 1)
unfolding ◌+ℤ◌
succ_pos n = ground arith

-- Some of the services has this publisher.
abbrev pub AnyRef : Published → List ServiceRef → String → Type 0
AnyRef published [] p = ⊥
AnyRef published (r ∷ rs) p = (publisher_of r.name published ≡ some p) ⊎ AnyRef published rs p

abbrev pub Meets : Published → (String → List String) → String → List ServiceRef → Type 0
Meets published edges plugin = All (λ (r : ServiceRef).
    (p : String) → publisher_of r.name published ≡ some p → 0 < count plugin (edges p))

pub Meets-more :
    (published : Published) (a b : String → List String) (plugin : String) (rs : List ServiceRef)
    → ((p : String) → count plugin (a p) ≤ count plugin (b p))
    → Meets published a plugin rs
    → Meets published b plugin rs
Meets-more published a b plugin [] h k = tt
Meets-more published a b plugin (r ∷ rs) h k = (
  λ p e. (let fewer = h p in let met = k.0 p e in omega arith),
  Meets-more published a b plugin rs h k.1,
)

-- For each plugin, its degree is the number of services that it waits for.
abbrev pub IsCounted : List String → Waits → Type 0
IsCounted ns w = (c : String) → w.in_degree c ≡ pos (waits w.reverse_edges ns [] c)

-- What a plugin's requirements add.
pub record Adds (published : Published) (ns : List String) (plugin : String) (rs : List ServiceRef)
    (w after : Waits) : Type 0 where
  pub counted : IsCounted ns w → IsCounted ns after
  pub others :
      (c p : String)
      → str_eq plugin c ≡ false
      → count c (after.reverse_edges p) ≡ count c (w.reverse_edges p)
  pub grows : (p : String) → count plugin (w.reverse_edges p) ≤ count plugin (after.reverse_edges p)
  pub meets : Meets published after.reverse_edges plugin rs
  pub why :
      (p : String)
      → 0 < count plugin (after.reverse_edges p)
      → AnyRef published rs p ⊎ (0 < count plugin (w.reverse_edges p))

-- A new edge counts once, at its publisher.
waits-other :
    (edges : String → List String) (ps : List String) (p plugin c : String)
    → count p ps ≡ 0
    → waits (update edges p (edges p ++ plugin ∷ [])) ps [] c ≡ waits edges ps [] c
waits-other edges [] p plugin c h = refl
waits-other edges (q ∷ ps) p plugin c h =
    ground (arith, eq_iff p q, eq_iff q p, waits-other edges ps p plugin c)

waits-edge :
    (edges : String → List String) (ps : List String) (p plugin c : String)
    → count p ps ≡ 1
    → waits (update edges p (edges p ++ plugin ∷ [])) ps [] c
      ≡ waits edges ps [] c + (if str_eq plugin c then 1 else 0)
waits-edge edges [] p plugin c h = absurd (omega arith)
waits-edge edges (q ∷ ps) p plugin c h = elim (Bool-cases (str_eq q p)) [
  | inl e ↦
      let same : q ≡ p = str_eq_sound q p e in
      let cost : count c (edges q) ≡ count c (edges p) =
        ap (λ (k : String). count c (edges k)) same in
      ground
        (arith, eq_iff p q, count-append c (edges p) (plugin ∷ []), waits-other edges ps p plugin c)
  | inr e ↦ ground (arith, eq_iff p q, eq_iff q p, waits-edge edges ps p plugin c)
]

count-add_edge :
    (p plugin c q : String) (w : Waits)
    → count c ((add_edge p plugin w).reverse_edges q)
      ≡ count c (w.reverse_edges q) + (if str_eq p q then (if str_eq plugin c then 1 else 0) else 0)
count-add_edge p plugin c q w = elim (Bool-cases (str_eq p q)) [
  | inl e ↦
      let same : p ≡ q = str_eq_sound p q e in
      let cost : count c (w.reverse_edges p) ≡ count c (w.reverse_edges q) =
        ap (λ (k : String). count c (w.reverse_edges k)) same in
      ground (arith, count-append c (w.reverse_edges p) (plugin ∷ []))
  | inr e ↦ ground arith
]

add_edge-IsCounted :
    (ns : List String) (p plugin : String) (w : Waits)
    → count p ns ≡ 1
    → IsCounted ns w
    → IsCounted ns (add_edge p plugin w)
add_edge-IsCounted ns p plugin w o h c = elim (Bool-cases (str_eq plugin c)) [
  | inl e ↦
      let same : plugin ≡ c = str_eq_sound plugin c e in
      rw e (
        ap (λ (k : String). w.in_degree k +ℤ pos 1) same
        ∙ ap (λ (z : ℤ). z +ℤ pos 1) (h c)
        ∙ succ_pos (waits w.reverse_edges ns [] c)
        ∙ ap pos (ground (arith, waits-edge w.reverse_edges ns p plugin c)))
  | inr e ↦ rw e (h c ∙ ap pos (ground (arith, waits-edge w.reverse_edges ns p plugin c)))
]

module _ (lib : GoLib) (published : Published) (ns : List String)
    (owned : (s p : String) → publisher_of s published ≡ some p → count p ns ≡ 1)
    (plugin : String) where
  required-Adds :
      (r : ServiceRef) (rs : List ServiceRef) (o : Option String) (w next after : Waits)
      → publisher_of r.name published ≡ o
      → required plugin r o w ≡ ok next
      → Adds published ns plugin rs next after
      → Adds published ns plugin (r ∷ rs) w after
  required-Adds r rs none w next after q h a =
      let same : next ≡ w = ground arith in
      let b = subst (λ (x : Waits). Adds published ns plugin rs x after) same a in
      record {
        counted = b.counted;
        others = b.others;
        grows = b.grows;
        meets = (λ p e. (let clash = sym q ∙ e in cc), b.meets);
        why = λ p k. more p (b.why p k);
      }
    where
      more :
          (p : String)
          → AnyRef published rs p ⊎ (0 < count plugin (w.reverse_edges p))
          → AnyRef published (r ∷ rs) p ⊎ (0 < count plugin (w.reverse_edges p))
      more p (inl x) = inl (inr x)
      more p (inr x) = inr x
  required-Adds r rs (some publisher) w next after q h a =
      let same : next ≡ add_edge publisher plugin w = ground arith in
      let b = subst (λ (x : Waits). Adds published ns plugin rs x after) same a in
      record {
        counted =
            λ k. b.counted (add_edge-IsCounted ns publisher plugin w (owned r.name publisher q) k);
        others = λ c p k. b.others c p k ∙ ground (arith, count-add_edge publisher plugin c p w);
        grows = λ p. omega (arith, b.grows p, count-add_edge publisher plugin plugin p w);
        meets = (
          λ p e.
              (let edge : some publisher ≡ some p = sym q ∙ e in
                ground (
                  arith,
                  b.grows p,
                  count-add_edge publisher plugin plugin p w,
                  str_eq_refl plugin,
                  eq_iff publisher p,
                )),
          b.meets,
        );
        why = λ p k. more p (b.why p k);
      }
    where
      more :
          (p : String)
          → AnyRef published rs p
            ⊎ (0 < count plugin ((add_edge publisher plugin w).reverse_edges p))
          → AnyRef published (r ∷ rs) p ⊎ (0 < count plugin (w.reverse_edges p))
      more p (inl x) = inl (inr x)
      more p (inr x) = elim (Bool-cases (str_eq publisher p)) [
        | inl e ↦ inl (inl (q ∙ ap some (str_eq_sound publisher p e)))
        | inr e ↦ inr (ground (arith, count-add_edge publisher plugin plugin p w))
      ]

  pub require_all-Adds :
      (seen : List String) (rs : List ServiceRef) (w after : Waits)
      → require_all lib published plugin seen rs w ≡ ok after
      → Adds published ns plugin rs w after
  require_all-Adds seen [] w after h =
      let same : w ≡ after = cc in
      subst (Adds published ns plugin [] w) same (record {
        counted = λ k. k;
        others = λ c p k. refl;
        grows = λ p. omega arith;
        meets = tt;
        why = λ p k. inr k;
      })
  require_all-Adds seen (r ∷ rs) w after h =
      turn (required plugin r (publisher_of r.name published) w)
        (λ next k. require_all-Adds (r.name ∷ seen) rs next after k) refl (ground arith)
    where
      turn :
          (x : Result Waits)
          → ((next : Waits)
              → require_all lib published plugin (r.name ∷ seen) rs next ≡ ok after
              → Adds published ns plugin rs next after)
          → required plugin r (publisher_of r.name published) w ≡ x
          → then_waits (require_all lib published plugin (r.name ∷ seen) rs) x ≡ ok after
          → Adds published ns plugin (r ∷ rs) w after
      turn (err e) ih q k = cc
      turn (ok next) ih q k =
          required-Adds r rs (publisher_of r.name published) w next after refl q (ih next k)
