-- ===== src/PluginHost/Graph.antt =====
-- host.go: `Graph`, the order in which the enabled plugins are loaded.
pub mod Names
pub mod Publishers
pub mod Declarations
pub mod Edges
pub mod Waiting
pub mod Invariant
pub mod Requirements
pub mod Start
pub mod Kahn
pub mod Order
pub mod Cycle
pub mod Mandatory
use xraytool_go.Prelude.{
  ℕ, zero, suc, ◌+◌, ◌==◌, Bool, true, false, not, Option, none, some, List, [], ◌∷◌, ◌++◌, map,
  String, keep, exists, length, str_eq, if◌then◌else◌,
}
use xraytool_go.Prelude.Int.{ℤ, pos, negsuc, ◌+ℤ◌, ◌-ℤ◌, eqb_ℤ}
use xraytool_go.Prelude.Count.{without_first}
use xraytool_go.GoLib.{GoLib}
use xraytool_go.Result.{Result, ok, err, message}
use xraytool_go.PluginHost.{ServiceRef, PluginMetadata, str_ltb, sort_by, sort_strings}

-- The messages of the errors, without the names that they quote.
abbrev pub empty_name : String
empty_name = "enabled plugin has an empty metadata name"

abbrev pub cycle : String
cycle = "plugin dependency graph contains a cycle"

abbrev pub enabled_metas : (String → Bool) → List PluginMetadata → List PluginMetadata
enabled_metas enabled plugins =
    sort_by (λ a b. str_ltb a.name b.name) (keep (λ m. enabled m.name) plugins)

-- The publisher of each service, the latest first; the names seen; the mandatory plugin, if not empty.
pub record Declared : Type 0 where
  pub published : List (String × String)
  pub names : List String
  pub mandatory_name : String

abbrev pub publisher_of : String → List (String × String) → Option String
publisher_of service [] = none
publisher_of service ((s, p) ∷ rest) =
    if str_eq s service then some p else publisher_of service rest

abbrev pub is_some {ℓ} : {A : Type ℓ} → Option A → Bool
is_some none = false
is_some (some _) = true

abbrev pub publish_all :
    GoLib
    → String
    → List String
    → List ServiceRef
    → List (String × String)
    → Result (List (String × String))
publish_all lib plugin seen [] published = ok published
publish_all lib plugin seen (p ∷ ps) published =
    let rest = publish_all lib plugin (p.name ∷ seen) ps ((p.name, plugin) ∷ published) in
    if str_eq (lib.trim_space p.name) ""
    then err (message "empty published service name")
    else (if exists (str_eq p.name) seen
        then err (message "published service declared more than once")
        else (if is_some (publisher_of p.name published)
            then err (message "service published by both plugins")
            else rest))

abbrev pub check_mandatory : PluginMetadata → Declared → Result Declared
check_mandatory m st =
    if m.mandatory
    then (if not (str_eq st.mandatory_name "")
        then err (message "more than one mandatory plugin")
        else (if not (length m.requires == 0)
            then err (message "mandatory plugin must not require services")
            else ok (record st { mandatory_name = m.name })))
    else ok st

abbrev pub with_published : Declared → Result (List (String × String)) → Result Declared
with_published st (ok published) = ok (record st { published = published })
with_published st (err e) = err e

abbrev pub declare_publishes : GoLib → PluginMetadata → Result Declared → Result Declared
declare_publishes lib m (err e) = err e
declare_publishes lib m (ok st) =
    with_published st (publish_all lib m.name [] m.publishes st.published)

abbrev pub declare : GoLib → PluginMetadata → Declared → Result Declared
declare lib m st =
    if str_eq (lib.trim_space m.name) ""
    then err (message empty_name)
    else (if exists (str_eq m.name) st.names
        then err (message "duplicate plugin name")
        else declare_publishes lib m (check_mandatory m (record st { names = m.name ∷ st.names })))

abbrev pub then_declared : (Declared → Result Declared) → Result Declared → Result Declared
then_declared k (ok st) = k st
then_declared k (err e) = err e

abbrev pub declare_all : GoLib → List PluginMetadata → Declared → Result Declared
declare_all lib [] st = ok st
declare_all lib (m ∷ ms) st = then_declared (declare_all lib ms) (declare lib m st)

-- The consumers of each plugin, and how many services each plugin waits for. The maps are functions:
-- a missing key reads as no consumer and as 0.
pub record Waits : Type 0 where
  pub reverse_edges : String → List String
  pub in_degree : String → ℤ

abbrev pub update {ℓ} : {A : Type ℓ} → (String → A) → String → A → String → A
update f key value k = if str_eq key k then value else f k

abbrev pub add_edge : String → String → Waits → Waits
add_edge publisher consumer w = record {
  reverse_edges = update w.reverse_edges publisher (w.reverse_edges publisher ++ consumer ∷ []);
  in_degree = update w.in_degree consumer (w.in_degree consumer +ℤ pos 1);
}

-- What a requirement whose service has this publisher adds; none is an error.
abbrev pub required : String → ServiceRef → Option String → Waits → Result Waits
required plugin r none w =
    if r.optional
    then ok w
    else err (message "required service is not published by any enabled plugin")
required plugin r (some publisher) w =
    if str_eq publisher plugin
    then err (message "plugin cannot require its own published service")
    else ok (add_edge publisher plugin w)

abbrev pub then_waits : (Waits → Result Waits) → Result Waits → Result Waits
then_waits k (ok w) = k w
then_waits k (err e) = err e

abbrev pub require_all :
    GoLib → List (String × String) → String → List String → List ServiceRef → Waits → Result Waits
require_all lib published plugin seen [] w = ok w
require_all lib published plugin seen (r ∷ rs) w =
    let rest =
      then_waits (require_all lib published plugin (r.name ∷ seen) rs)
        (required plugin r (publisher_of r.name published) w) in
    if str_eq (lib.trim_space r.name) ""
    then err (message "empty required service name")
    else (if exists (str_eq r.name) seen
        then err (message "required service declared more than once")
        else rest)

abbrev pub add_all : GoLib → List (String × String) → List PluginMetadata → Waits → Result Waits
add_all lib published [] w = ok w
add_all lib published (m ∷ ms) w = then_waits (add_all lib published ms) (
    require_all lib published m.name [] m.requires
      (record w { in_degree = update w.in_degree m.name (pos 0) }))

abbrev pub mandatory_first : String → List String → List String
mandatory_first name ready =
    if str_eq name ""
    then ready
    else (if exists (str_eq name) ready then name ∷ without_first name ready else ready)

-- The consumers of the plugin that is taken: each waits for one service less.
abbrev pub release : List String → (String → ℤ) → List String → List String × (String → ℤ)
release [] degree ready = (ready, degree)
release (c ∷ cs) degree ready =
    release cs (update degree c (degree c -ℤ pos 1))
      (if eqb_ℤ (degree c -ℤ pos 1) (pos 0) then ready ++ c ∷ [] else ready)

-- The loop on fuel; each round takes the first of the ready plugins.
abbrev pub kahn :
    (String → List String) → ℕ → List String → (String → ℤ) → List String → List String
kahn edges zero ready degree order = order
kahn edges (suc fuel) [] degree order = order
kahn edges (suc fuel) (current ∷ ready) degree order =
    kahn edges fuel (sort_strings (release (edges current) degree ready).0)
      (release (edges current) degree ready).1 (order ++ current ∷ [])

abbrev pub ready_at_first : List PluginMetadata → Waits → List String
ready_at_first metas w =
    sort_strings (map (λ m. m.name) (keep (λ m. eqb_ℤ (w.in_degree m.name) (pos 0)) metas))

abbrev pub sorted_edges : Waits → String → List String
sorted_edges w p = sort_strings (w.reverse_edges p)

abbrev pub run : ℕ → List PluginMetadata → String → Waits → List String
run fuel metas mandatory_name w =
    kahn (sorted_edges w) fuel (mandatory_first mandatory_name (ready_at_first metas w)) w.in_degree
      []

abbrev pub complete : List PluginMetadata → List String → Result (List String)
complete metas order = if length order == length metas then ok order else err (message cycle)

abbrev pub ordered : List PluginMetadata → String → Result Waits → Result (List String)
ordered metas mandatory_name (err e) = err e
ordered metas mandatory_name (ok w) = complete metas (run (length metas) metas mandatory_name w)

abbrev pub no_waits : Waits
no_waits = record { reverse_edges = λ _. []; in_degree = λ _. pos 0 }

abbrev pub nothing_declared : Declared
nothing_declared = record { published = []; names = []; mandatory_name = "" }

abbrev pub graph_of : GoLib → List PluginMetadata → Result Declared → Result (List String)
graph_of lib metas (err e) = err e
graph_of lib metas (ok st) =
    ordered metas st.mandatory_name (add_all lib st.published metas no_waits)

unfoldable pub graph : GoLib → List PluginMetadata → (String → Bool) → Result (List String)
graph lib plugins enabled =
    graph_of lib (enabled_metas enabled plugins)
      (declare_all lib (enabled_metas enabled plugins) nothing_declared)
