-- ===== src/PluginHost.antt =====
-- internal/pluginhost/host.go, and the descriptors of plugins of internal/pluginapi/pluginapi.go.
pub mod Graph
pub mod Registry
use xraytool_go.Prelude.{Bool, List, String}
pub use xraytool_go.Prelude.Sort.{str_ltb, insert_by, sort_by, sort_strings}

pub record ServiceRef : Type 0 where
  pub name : String
  pub optional : Bool

pub record PluginMetadata : Type 0 where
  pub name : String
  pub kind : String
  pub version : String
  pub api_version : String
  pub description : String
  pub mandatory : Bool
  pub publishes : List ServiceRef
  pub requires : List ServiceRef
