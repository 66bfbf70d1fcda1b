-- ===== src/PluginHost/Registry.antt =====
-- internal/pluginhost/host.go: ServiceRegistry, and the services that a plugin publishes after its Init.
pub mod Published
use xraytool_go.Prelude.{
  Bool, true, false, not, Option, none, some, List, [], ◌∷◌, String, exists, str_eq, if◌then◌else◌,
}
use xraytool_go.Prelude.Dict.{Dict, lookup, insert}
use xraytool_go.Result.{Result, ok, err, message}
use xraytool_go.PluginHost.{ServiceRef}

-- What a service is made of is left open; `is_nil` is isNilService, and `trim` strings.TrimSpace.
module _ {V : Type 0} (trim : String → String) (is_nil : V → Bool) where
  abbrev pub is_known : Option V → Bool
  is_known none = false
  is_known (some _) = true

  unfoldable publish : String → V → Dict V → Result (Unit {0}) × Dict V
  publish name service r =
      if str_eq (trim name) ""
      then (err (message "service name must not be empty"), r)
      else (if is_nil service
          then (err (message "service must not be nil"), r)
          else (if is_known (lookup name r)
              then (err (message "service is already published"), r)
              else (ok tt, insert name service r)))

  abbrev pub is_bad : String × V → Bool
  is_bad (name, service) = if str_eq (trim name) "" then true else is_nil service

  abbrev pub insert_all : Dict V → Dict V → Dict V
  insert_all [] r = r
  insert_all ((name, service) ∷ services) r = insert_all services (insert name service r)

  -- Which of several errors is returned depends on the order of Go's map.
  unfoldable pub publish_batch : Dict V → Dict V → Result (Unit {0}) × Dict V
  publish_batch services r =
      if exists is_bad services
      then (err (message "service name must not be empty, or service nil"), r)
      else (if exists (λ s. is_known (lookup s.0 r)) services
          then (err (message "service is already published"), r)
          else (ok tt, insert_all services r))

  unfoldable resolve : String → Dict V → Result V
  resolve name r = elim (lookup name r) [
    | none ↦ err (message "service is not published by any loaded plugin")
    | some service ↦ ok service
  ]

  -- Only within Init, and only what the plugin requires.
  unfoldable scoped_resolve : Bool → List ServiceRef → String → Dict V → Result V
  scoped_resolve active requires name r =
      if not active
      then err (message "resolve after Init() completed")
      else (if not (exists (λ s. str_eq s.name name) requires)
          then err (message "service is not declared in its Metadata().Requires")
          else resolve name r)

  abbrev pub declare_one : String → Option V → Dict V → Result (Dict V)
  declare_one name none declared = err (message "plugin did not provide declared service")
  declare_one name (some service) declared =
      if is_nil service
      then err (message "plugin provided nil for declared service")
      else ok (insert name service declared)

  abbrev pub then_declare : (Dict V → Result (Dict V)) → Result (Dict V) → Result (Dict V)
  then_declare k (ok d) = k d
  then_declare k (err e) = err e

  abbrev pub declare_services : Dict V → List ServiceRef → Dict V → Result (Dict V)
  declare_services services [] declared = ok declared
  declare_services services (p ∷ ps) declared =
      then_declare (declare_services services ps)
        (declare_one p.name (lookup p.name services) declared)

  abbrev pub publish_declared : Dict V → Result (Dict V) → Dict V → Result (Unit {0}) × Dict V
  publish_declared services (err e) r = (err e, r)
  publish_declared services (ok declared) r =
      if exists (λ s. not (is_known (lookup s.0 declared))) services
      then (err (message "plugin provided undeclared service"), r)
      else publish_batch declared r

  -- `none` is a plugin that is no ServiceProvider.
  unfoldable pub publish_declared_services :
      List ServiceRef → Option (Dict V) → Dict V → Result (Unit {0}) × Dict V
  publish_declared_services [] none r = (ok tt, r)
  publish_declared_services (p ∷ ps) none r =
      (err (message "plugin declares published services but is no ServiceProvider"), r)
  publish_declared_services ps (some services) r =
      publish_declared services (declare_services services ps []) r
