-- ===== src/PluginHost/Graph/Publishers.antt =====
-- host.go: the first loop of `Graph`, over the names and the publications of the enabled plugins.
use xraytool_go.Prelude.{
  true, false, ◌≡◌, subst, ap, ◌∙◌, ◌⊎◌, inl, inr, some, List, [], ◌∷◌, String, arith, str_eq,
  str_eq_refl, str_eq_sound, Bool-cases, All,
}
use xraytool_go.GoLib.{GoLib}
use xraytool_go.Result.{ok}
use xraytool_go.PluginHost.{ServiceRef}
use xraytool_go.PluginHost.Graph.{publisher_of, is_some, publish_all}

abbrev pub Published : Type 0
Published = List (String × String)

-- The later publications leave the earlier ones as they are.
abbrev pub Extends : Published → Published → Type 0
Extends a b = (s p : String) → publisher_of s a ≡ some p → publisher_of s b ≡ some p

-- Every publisher is among the names, or was there before.
abbrev pub OwnedBy : String → Published → Published → Type 0
OwnedBy plugin a b =
    (s p : String) → publisher_of s b ≡ some p → (p ≡ plugin) ⊎ (publisher_of s a ≡ some p)

abbrev pub PublishedBy : String → Published → List ServiceRef → Type 0
PublishedBy plugin published = All (λ (r : ServiceRef). publisher_of r.name published ≡ some plugin)

pub PublishedBy-Extends :
    (plugin : String) (a b : Published) (rs : List ServiceRef)
    → Extends a b
    → PublishedBy plugin a rs
    → PublishedBy plugin b rs
PublishedBy-Extends plugin a b [] e h = tt
PublishedBy-Extends plugin a b (r ∷ rs) e h =
    (e r.name plugin h.0, PublishedBy-Extends plugin a b rs e h.1)

new_service :
    (s plugin : String) (a : Published)
    → is_some (publisher_of s a) ≡ false
    → Extends a ((s, plugin) ∷ a)
new_service s plugin a h t p k = elim (Bool-cases (str_eq s t)) [
  | inl e ↦
      let same : publisher_of s a ≡ some p =
        ap (λ (x : String). publisher_of x a) (str_eq_sound s t e) ∙ k in
      let taken : is_some (publisher_of s a) ≡ true = rw same in cc
  | inr e ↦ rw e k
]

pub publish_all_lem :
    (lib : GoLib) (plugin : String) (seen : List String) (rs : List ServiceRef) (a b : Published)
    → publish_all lib plugin seen rs a ≡ ok b
    → Extends a b × OwnedBy plugin a b × PublishedBy plugin b rs
publish_all_lem lib plugin seen [] a b h =
    let same : a ≡ b = cc in
    subst (λ (x : Published). Extends a x × OwnedBy plugin a x × Unit {0}) same
      (λ s p k. k, λ s p k. inr k, tt)
publish_all_lem lib plugin seen (r ∷ rs) a b h =
    let free : is_some (publisher_of r.name a) ≡ false = ground arith in
    let next : publish_all lib plugin (r.name ∷ seen) rs ((r.name, plugin) ∷ a) ≡ ok b =
      ground arith in
    let rest = publish_all_lem lib plugin (r.name ∷ seen) rs ((r.name, plugin) ∷ a) b next in
    (
      λ s p k. rest.0 s p (new_service r.name plugin a free s p k),
      λ s p k. older s p (rest.1 s p k),
      (rest.0 r.name plugin (rw (str_eq_refl r.name)), rest.2),
    )
  where
    older :
        (s p : String)
        → (p ≡ plugin) ⊎ (publisher_of s ((r.name, plugin) ∷ a) ≡ some p)
        → (p ≡ plugin) ⊎ (publisher_of s a ≡ some p)
    older s p (inl e) = inl e
    older s p (inr e) = ground arith
