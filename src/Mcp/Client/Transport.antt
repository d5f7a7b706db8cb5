-- ===== src/Mcp/Client/Transport.antt =====
-- mcp/transport.go, and the client's state. The transports' HTTP side is an interface: opening one,
-- a round trip, a notification and closing it, over the state `W` of servers and connections.
use mcp_plugin.Base.Tests.{ℕ, suc, Bool, Option, none, List, [], Result}
use mcp_plugin.Base.Text.{Text}
use mcp_plugin.Base.Dict.{Dict}
use mcp_plugin.Json.Decode.{Scanner}
use mcp_plugin.Config.Expand.{ServerConfig}
use mcp_plugin.Mcp.Types.Payloads.{GlossaryEntry, KnowledgeArticle}
use mcp_plugin.Mcp.Types.Results.{RpcError}
use mcp_plugin.Plugin.Args.Value.{Value}

-- A transport is one of the two kinds, with the number of its object.
pub data Transport : Type 0 where
  streamable sse : ℕ → Transport

-- The requests that the client sends.
pub data Call : Type 0 where
  initialize initialized tools_list : Call
  tools_call : Text → Dict Value → Call

-- `rpcRequest`; a notification has no id.
pub record RpcRequest : Type 0 where
  pub id : Option ℕ
  pub call : Call

-- The parts of `rpcResponse` that the client reads.
pub record RpcReply : Type 0 where
  pub failed : Option RpcError
  pub result : Text

pub record Wire (W : Type 0) : Type 0 where
  -- `newStreamableHTTP`
  pub open_streamable : ServerConfig → W → ℕ × W
  -- `newSSEConn` and its `connect`; a failure leaves nothing open
  pub open_sse : ServerConfig → W → Result ℕ × W
  -- the timeout in seconds and the extra headers stand before the state
  pub round_trip : Transport → RpcRequest → ℕ → Dict Text → W → Result RpcReply × W
  pub notify : Transport → RpcRequest → W → W
  pub close : Transport → W → W
  -- whether the transport's context is done
  pub is_done : Transport → W → Bool
  pub shape : Scanner

-- `Client`
pub record Client : Type 0 where
  pub cfg : ServerConfig
  pub tp : Option Transport
  pub id_counter : ℕ
  pub instructions : Text
  pub glossary : List GlossaryEntry
  pub knowledge_articles : List KnowledgeArticle

-- `NewClient`
abbrev pub new_client : ServerConfig → Client
new_client cfg = record {
  cfg = cfg;
  tp = none;
  id_counter = 0;
  instructions = [];
  glossary = [];
  knowledge_articles = [];
}

-- `nextID`: the new counter is the id.
unfoldable pub next_id : Client → Client
next_id c = record c { id_counter = suc c.id_counter }
