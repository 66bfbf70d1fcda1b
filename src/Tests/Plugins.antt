-- ===== src/Tests/Plugins.antt =====
-- Plugins that need one another, in a row and in a ring.
use xraytool_go.Prelude.{
  not, some, ◌≡◌, refl, Bool, true, false, List, [], ◌∷◌, String, All, length, ◌+◌, ◌<◌, str_eq,
  if◌then◌else◌,
}
use xraytool_go.Prelude.Int.{pos, ◌+ℤ◌, ◌-ℤ◌}
use xraytool_go.Result.{ok, err, message}
use xraytool_go.Tests.Data.{go}
use xraytool_go.Prelude.Dict.{Dict}
use xraytool_go.PluginHost.{ServiceRef, PluginMetadata}
use xraytool_go.PluginHost.Registry.{publish_declared_services, publish_batch}
use xraytool_go.PluginHost.Registry.Published.{IsPublished, publish_declared_services-IsPublished}
use xraytool_go.PluginHost.Graph.{
  Declared, Waits, enabled_metas, graph, run, cycle, update, no_waits,
}
use xraytool_go.PluginHost.Graph.Names.{count}
use xraytool_go.PluginHost.Graph.Declarations.{names_of}
use xraytool_go.PluginHost.Graph.Requirements.{Requires}
use xraytool_go.PluginHost.Graph.Start.{IsPrepared}
use xraytool_go.PluginHost.Graph.Order.{IsLoadOrder, graph-IsLoadOrder, run-enough}
use xraytool_go.PluginHost.Graph.Cycle.{graph-cycle}
use xraytool_go.PluginHost.Graph.Mandatory.{graph-mandatory}

abbrev service : String → ServiceRef
service name = record { name = name; optional = false }

abbrev plugin : String → Bool → List ServiceRef → List ServiceRef → PluginMetadata
plugin name mandatory publishes requires = record {
  name = name;
  kind = "core";
  version = "1";
  api_version = "1";
  description = "";
  mandatory = mandatory;
  publishes = publishes;
  requires = requires;
}

abbrev row : List PluginMetadata
row =
    plugin "bans" false (service "ban_list" ∷ []) (service "db" ∷ [])
    ∷ plugin "alerts" false [] (service "ban_list" ∷ [])
    ∷ plugin "core" true (service "db" ∷ []) []
    ∷ plugin "unused" false [] (service "nothing" ∷ [])
    ∷ []

abbrev chosen : String → Bool
chosen name = if str_eq name "unused" then false else true

abbrev row_order : List String
row_order = "core" ∷ "bans" ∷ "alerts" ∷ []

row_lem : graph go row chosen ≡ ok row_order
unfolding graph ◌+ℤ◌ ◌-ℤ◌
row_lem = refl

graph-IsLoadOrder_example : IsLoadOrder (enabled_metas chosen row) row_order
graph-IsLoadOrder_example = graph-IsLoadOrder go row chosen row_order row_lem

graph-mandatory_example :
    All
      (λ (m : PluginMetadata).
        m.mandatory ≡ true → (rest : List String) × (row_order ≡ m.name ∷ rest))
      (enabled_metas chosen row)
graph-mandatory_example = graph-mandatory go row chosen row_order refl row_lem

abbrev ring : List PluginMetadata
ring =
    plugin "core" true (service "db" ∷ []) []
    ∷ plugin "left" false (service "a" ∷ []) (service "b" ∷ [])
    ∷ plugin "right" false (service "b" ∷ []) (service "a" ∷ [])
    ∷ []

abbrev ring_declared : Declared
ring_declared = record {
  published = ("b", "right") ∷ ("a", "left") ∷ ("db", "core") ∷ [];
  names = "right" ∷ "left" ∷ "core" ∷ [];
  mandatory_name = "core";
}

abbrev ring_waits : Waits
ring_waits = record {
  reverse_edges =
      update (update no_waits.reverse_edges "right" ("left" ∷ [])) "left" ("right" ∷ []);
  in_degree =
      update
        (update
          (update (update (update no_waits.in_degree "core" (pos 0)) "left" (pos 0)) "left" (pos 1))
          "right" (pos 0))
        "right" (pos 1);
}

ring-IsPrepared : IsPrepared go (enabled_metas chosen ring) ring_declared ring_waits
unfolding ◌+ℤ◌
ring-IsPrepared = record { declared = refl; required = refl }

ring_lem : graph go ring chosen ≡ err (message cycle)
unfolding graph ◌+ℤ◌ ◌-ℤ◌
ring_lem = refl

run-enough_example :
    run (length (enabled_metas chosen ring) + 5) (enabled_metas chosen ring) "core" ring_waits
    ≡ run (length (enabled_metas chosen ring)) (enabled_metas chosen ring) "core" ring_waits
run-enough_example =
    run-enough go (enabled_metas chosen ring) ring_declared ring_waits 5 ring-IsPrepared

graph-cycle_example :
    (order : List String) × ((n : String) × (0 < count n (names_of (enabled_metas chosen ring)))
      × (count n order ≡ 0))
    × ((n : String)
        → 0 < count n (names_of (enabled_metas chosen ring))
        → count n order ≡ 0
        → (p : String) × (0 < count p (names_of (enabled_metas chosen ring)))
          × (count p order ≡ 0)
          × Requires ring_declared.published (enabled_metas chosen ring) n p)
graph-cycle_example =
    graph-cycle go ring chosen ring_declared ring_waits (message cycle) ring-IsPrepared ring_lem

abbrev is_absent : Bool → Bool
is_absent b = not b

-- Both publications are declared and provided, beside a service of another plugin.
abbrev provided : Dict Bool
provided = ("mail", true) ∷ ("sms", true) ∷ []

abbrev known : Dict Bool
known = ("db", true) ∷ []

abbrev offers : List ServiceRef
offers = service "mail" ∷ service "sms" ∷ []

provided_lem :
    publish_declared_services go.trim_space is_absent offers (some provided) known
    ≡ (ok tt, ("mail", true) ∷ ("sms", true) ∷ known)
unfolding publish_declared_services publish_batch
provided_lem = refl

publish_declared_services-IsPublished_example :
    IsPublished go.trim_space is_absent provided offers known
      (publish_declared_services go.trim_space is_absent offers (some provided) known)
publish_declared_services-IsPublished_example =
    publish_declared_services-IsPublished go.trim_space is_absent provided known offers
