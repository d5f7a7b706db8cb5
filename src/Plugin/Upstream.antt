-- ===== src/Plugin/Upstream.antt =====
-- What the plugin package sees of the rest: the mcp package's client, the cache's files, the JSON
-- scanner and the Unicode tables. `W` is the state of all that lies outside the registry: servers,
-- connections and files.
use mcp_plugin.Base.Tests.{ℕ, Bool, Option, List, Result}
use mcp_plugin.Base.Text.{Text}
use mcp_plugin.Base.Dict.{Dict}
use mcp_plugin.Config.Expand.{ServerConfig}
use mcp_plugin.Mcp.Types.Tools.{Tool}
use mcp_plugin.Mcp.Types.Payloads.{GlossaryEntry, KnowledgeArticle}
use mcp_plugin.Plugin.Args.Value.{Value, Decoders}
use mcp_plugin.Json.Decode.{Scanner}

-- The methods of `mcp.Client`; a client is the number of its object. An error is its message.
pub record Upstream (W : Type 0) : Type 0 where
  -- `NewClient` and `Connect`
  pub connect : ServerConfig → W → Result ℕ × W
  pub list_tools : ℕ → W → Result (List Tool) × W
  pub is_streamable : ℕ → W → Bool
  -- `FallbackSSE`; no message is success
  pub fallback_sse : ℕ → W → Option Text × W
  pub call_tool : ℕ → Text → Dict Value → Dict Text → W → Result (Text × Text) × W
  pub instructions : ℕ → W → Text
  pub glossary : ℕ → W → List GlossaryEntry
  pub knowledge_articles : ℕ → W → List KnowledgeArticle
  pub is_alive : ℕ → W → Bool
  pub close : ℕ → W → W

-- Files of the cache, each a directory and a name in it.
pub record Disk (W : Type 0) : Type 0 where
  pub read_file : Text → Text → W → Option Text
  pub write_file : Text → Text → Text → W → Option Text × W
  pub mkdir_all : Text → W → Option Text × W

pub record Host (W : Type 0) : Type 0 where
  pub upstream : Upstream W
  pub disk : Disk W
  pub shape : Scanner
  pub decoders : Decoders
  -- `json.Marshal` of a `cachedServer`
  pub encode_cached : Text → List Tool → Result Text
  -- the verb %q of fmt
  pub quote : Text → Text
