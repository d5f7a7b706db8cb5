-- ===== src/Plugin/Types.antt =====
-- plugin/registry.go: `entry`, `Registry`, and the host's message types that `Build` fills in (of
-- pkg/plugin of the opentalon repository: the fields that this code sets).
use mcp_plugin.Base.Tests.{ℕ, Bool, Option, List, []}
use mcp_plugin.Base.Text.{Text, codes}
use mcp_plugin.Base.Dict.{Dict}
use mcp_plugin.Config.Expand.{ServerConfig}
use mcp_plugin.Mcp.Types.Tools.{InputSchema}
use mcp_plugin.Mcp.Types.Payloads.{GlossaryEntry, KnowledgeArticle}

-- `entry`; a client is the number of its object, and none for an entry loaded from the cache.
pub record Entry : Type 0 where
  pub client : Option ℕ
  pub mcp_tool_name : Text
  pub schema : InputSchema
  pub cfg : ServerConfig

-- `ParameterMsg`; `schema` is raw JSON.
pub record ParameterMsg : Type 0 where
  pub name : Text
  pub description : Text
  pub schema : Text
  pub required : Bool

-- `ActionMsg`
pub record ActionMsg : Type 0 where
  pub name : Text
  pub description : Text
  pub parameters : List ParameterMsg
  pub read_only : Bool
  pub always_include : Bool
  pub confirmation_hint : Text
  pub companions : List Text
  pub inject_context_args : List Text

-- `CapabilitiesMsg`; the glossary and article messages have the fields of the MCP types.
pub record CapabilitiesMsg : Type 0 where
  pub name : Text
  pub description : Text
  pub actions : List ActionMsg
  pub system_prompt_addition : Text
  pub glossary : List GlossaryEntry
  pub knowledge_articles : List KnowledgeArticle

-- `Registry`
pub record Registry : Type 0 where
  pub actions : Dict Entry
  pub caps : CapabilitiesMsg
  pub failed_servers : List ServerConfig
  pub offline_servers : List ServerConfig

-- `defaultCaps`, which `Build` starts from as well.
abbrev pub default_caps : CapabilitiesMsg
default_caps = record {
  name = codes "mcp";
  description = codes "Universal MCP bridge: exposes tools from all configured MCP servers";
  actions = [];
  system_prompt_addition = [];
  glossary = [];
  knowledge_articles = [];
}

-- The separator of "<server>__<tool>".
abbrev pub separator : Text
separator = codes "__"
