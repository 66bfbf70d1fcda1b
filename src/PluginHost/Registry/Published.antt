-- ===== src/PluginHost/Registry/Published.antt =====
-- internal/pluginhost/host.go: the registry after a plugin has published its services.
use xraytool_go.Prelude.{
  Bool, false, not, ◌≡◌, refl, sym, subst, ◌∙◌, ◌⊎◌, inl, inr, Option, none, some, List, [], ◌∷◌,
  String, arith, exists, str_eq, str_eq_sound, eq_iff, Bool-cases, All,
}
use xraytool_go.Prelude.Dict.{
  Dict, lookup, insert, IsDict, lookup-erase, lookup-none, tail-IsDict, insert-IsDict,
}
use xraytool_go.Result.{Result, ok, err}
use xraytool_go.PluginHost.{ServiceRef}
use xraytool_go.PluginHost.Registry.{
  is_known, is_bad, insert_all, publish_batch, declare_one, then_declare, declare_services,
  publish_declared, publish_declared_services,
}

module _ {V : Type 0} (trim : String → String) (is_nil : V → Bool) where
  abbrev first_of : Option V → Option V → Option V
  first_of none o = o
  first_of (some v) o = some v

  insert_all-lookup :
      (n : String) (services r : Dict V)
      → IsDict services
      → lookup n (insert_all trim is_nil services r) ≡ first_of (lookup n services) (lookup n r)
  insert_all-lookup n [] r d = refl
  insert_all-lookup n ((k, v) ∷ services) r d =
      insert_all-lookup n services (insert k v r) (tail-IsDict k v services d)
      ∙ elim (Bool-cases (str_eq k n)) [
        | inl e ↦
            let gone : lookup n services ≡ none = lookup-none n services (ground (arith, d n)) in
            rw (gone, e)
        | inr e ↦ rw (e, lookup-erase k n r, e)
      ]

  -- What the declared services are: each from the provider, and each publication among them.
  record IsDeclared (services : Dict V) (ps : List ServiceRef) (before after : Dict V)
      : Type 0 where
    keyed : IsDict before → IsDict after
    kept :
        (n : String) (v : V)
        → lookup n before ≡ some v
        → lookup n services ≡ some v
        → lookup n after ≡ some v
    provided :
        (n : String) (v : V)
        → lookup n after ≡ some v
        → (lookup n services ≡ some v) ⊎ (lookup n before ≡ some v)
    declared :
        All
          (λ (p : ServiceRef).
            (v : V) × (lookup p.name services ≡ some v) × (lookup p.name after ≡ some v))
          ps

  declare_one-IsDeclared :
      (services : Dict V) (p : ServiceRef) (ps : List ServiceRef) (v : V) (before after : Dict V)
      → lookup p.name services ≡ some v
      → IsDeclared services ps (insert p.name v before) after
      → IsDeclared services (p ∷ ps) before after
  declare_one-IsDeclared services p ps v before after q d = record {
    keyed = λ k. d.keyed (insert-IsDict p.name v before k);
    kept = λ n x b s. d.kept n x (ground (arith, eq_iff p.name n, lookup-erase p.name n before)) s;
    provided = λ n x a. older n x (d.provided n x a);
    declared = ((v, q, d.kept p.name v (ground (arith, eq_iff p.name p.name)) q), d.declared);
  }
    where
      older :
          (n : String) (x : V)
          → (lookup n services ≡ some x) ⊎ (lookup n (insert p.name v before) ≡ some x)
          → (lookup n services ≡ some x) ⊎ (lookup n before ≡ some x)
      older n x (inl s) = inl s
      older n x (inr b) = elim (Bool-cases (str_eq p.name n)) [
        | inl e ↦ inl (
            subst (λ (k : String). lookup k services ≡ some x) (str_eq_sound p.name n e)
              (q ∙ ground arith))
        | inr e ↦ inr (ground (arith, lookup-erase p.name n before))
      ]

  declare_then-IsDeclared :
      (services : Dict V) (p : ServiceRef) (ps : List ServiceRef) (before after : Dict V)
      (o : Option V)
      → lookup p.name services ≡ o
      → then_declare trim is_nil
          (declare_services trim is_nil services ps)
          (declare_one trim is_nil p.name o before)
        ≡ ok after
      → ((d : Dict V)
          → declare_services trim is_nil services ps d ≡ ok after
          → IsDeclared services ps d after)
      → IsDeclared services (p ∷ ps) before after
  declare_then-IsDeclared services p ps before after none o q ih = ground arith
  declare_then-IsDeclared services p ps before after (some v) o q ih =
      elim (Bool-cases (is_nil v)) [
        | inl e ↦ ground arith
        | inr e ↦
            declare_one-IsDeclared services p ps v before after o
              (ih (insert p.name v before) (ground arith))
      ]

  declare_services-IsDeclared :
      (services : Dict V) (ps : List ServiceRef) (before after : Dict V)
      → declare_services trim is_nil services ps before ≡ ok after
      → IsDeclared services ps before after
  declare_services-IsDeclared services [] before after q =
      let same : before ≡ after = ground arith in
      subst (λ (d : Dict V). IsDeclared services [] before d) same
        (record { keyed = λ k. k; kept = λ n v b s. b; provided = λ n v a. inr a; declared = tt })
  declare_services-IsDeclared services (p ∷ ps) before after q =
      declare_then-IsDeclared services p ps before after (lookup p.name services) refl q
        (λ d e. declare_services-IsDeclared services ps d after e)

  not_known :
      (n : String) (declared r : Dict V) (v : V)
      → exists (λ s. is_known trim is_nil (lookup s.0 r)) declared ≡ false
      → lookup n r ≡ some v
      → lookup n declared ≡ none
  not_known n [] r v q e = refl
  not_known n ((k, x) ∷ declared) r v q e = ground (arith, eq_iff k n, not_known n declared r v)

  -- The registry either stays as it was, or has what it had and just what the plugin declared and provided.
  abbrev pub IsPublished : Dict V → List ServiceRef → Dict V → Result (Unit {0}) × Dict V → Type 0
  IsPublished services ps r (err e, next) = next ≡ r
  IsPublished services ps r (ok done, next) =
      ((n : String) (v : V) → lookup n r ≡ some v → lookup n next ≡ some v)
      × ((n : String) (v : V)
          → lookup n next ≡ some v
          → (lookup n services ≡ some v) ⊎ (lookup n r ≡ some v))
      × All
          (λ (p : ServiceRef).
            (v : V) × (lookup p.name services ≡ some v) × (lookup p.name next ≡ some v))
          ps

  insert_all-IsPublished :
      (services declared r : Dict V) (ps : List ServiceRef)
      → IsDeclared services ps [] declared
      → exists (λ s. is_known trim is_nil (lookup s.0 r)) declared ≡ false
      → IsPublished services ps r (ok tt, insert_all trim is_nil declared r)
  insert_all-IsPublished services declared r ps d fresh = (earlier, later, each ps d.declared)
    where
      found :
          (n : String)
          → lookup n (insert_all trim is_nil declared r) ≡ first_of (lookup n declared) (lookup n r)
      found n = insert_all-lookup n declared r (d.keyed (λ k. ground arith))

      earlier :
          (n : String) (v : V)
          → lookup n r ≡ some v
          → lookup n (insert_all trim is_nil declared r) ≡ some v
      earlier n v e = ground (arith, found n, not_known n declared r v fresh e)

      from :
          (n : String) (v : V) (o : Option V)
          → lookup n declared ≡ o
          → first_of o (lookup n r) ≡ some v
          → (lookup n services ≡ some v) ⊎ (lookup n r ≡ some v)
      from n v none o e = inr e
      from n v (some x) o e = elim (d.provided n v (o ∙ e)) [ inl s ↦ inl s | inr b ↦ ground arith ]

      later :
          (n : String) (v : V)
          → lookup n (insert_all trim is_nil declared r) ≡ some v
          → (lookup n services ≡ some v) ⊎ (lookup n r ≡ some v)
      later n v e = from n v (lookup n declared) refl (sym (found n) ∙ e)

      each :
          (qs : List ServiceRef)
          → All
              (λ (p : ServiceRef).
                (v : V) × (lookup p.name services ≡ some v) × (lookup p.name declared ≡ some v))
              qs
          → All
              (λ (p : ServiceRef).
                (v : V) × (lookup p.name services ≡ some v)
                × (lookup p.name (insert_all trim is_nil declared r) ≡ some v))
              qs
      each [] a = tt
      each (p ∷ qs) ((v, s, k), a) = ((v, s, ground (arith, found p.name)), each qs a)

  publish_batch-IsPublished :
      (services declared r : Dict V) (ps : List ServiceRef)
      → IsDeclared services ps [] declared
      → IsPublished services ps r (publish_batch trim is_nil declared r)
  unfolding publish_batch
  publish_batch-IsPublished services declared r ps d =
      elim (Bool-cases (exists (is_bad trim is_nil) declared)) [
        | inl e ↦ rw e refl
        | inr e ↦
            rw e (elim (Bool-cases (exists (λ s. is_known trim is_nil (lookup s.0 r)) declared)) [
              | inl k ↦ rw k refl
              | inr k ↦ rw k (insert_all-IsPublished services declared r ps d k)
            ])
      ]

  publish_declared-IsPublished :
      (services r : Dict V) (ps : List ServiceRef) (o : Result (Dict V))
      → declare_services trim is_nil services ps [] ≡ o
      → IsPublished services ps r (publish_declared trim is_nil services o r)
  publish_declared-IsPublished services r ps (err e) q = refl
  publish_declared-IsPublished services r ps (ok declared) q =
      elim (Bool-cases (exists (λ s. not (is_known trim is_nil (lookup s.0 declared))) services)) [
        | inl e ↦ rw e refl
        | inr e ↦ rw e (
            publish_batch-IsPublished services declared r ps
              (declare_services-IsDeclared services ps [] declared q))
      ]

  -- For a plugin that is a ServiceProvider: if publishDeclaredServices returns an error, the registry is as it
  -- was. If not, every service registered before stays registered under its name, every other registered one
  -- is provided by the plugin, and each declared publication is registered with the service provided for it.
  pub publish_declared_services-IsPublished :
      (services r : Dict V) (ps : List ServiceRef)
      → IsPublished services ps r (publish_declared_services trim is_nil ps (some services) r)
  unfolding publish_declared_services
  publish_declared_services-IsPublished services r [] =
      publish_declared-IsPublished services r [] _ refl
  publish_declared_services-IsPublished services r (p ∷ ps) =
      publish_declared-IsPublished services r (p ∷ ps) _ refl
