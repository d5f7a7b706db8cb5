-- ===== src/Plugin/Handler/Execute.antt =====
-- plugin/handler.go: `Execute`. The handler's registry is an argument; a reconnect returns it
-- changed.
pub mod Laws
pub mod Owned
pub mod Renewed
use mcp_plugin.Base.Tests.{
  ℕ, Bool, true, false, Option, none, some, List, [], ◌∷◌, ◌++◌, if◌then◌else◌, Result, ok, err,
}
use mcp_plugin.Base.Text.{Text, codes}
use mcp_plugin.Base.Dict.{Dict, lookup}
use mcp_plugin.Plugin.Types.{Entry, Registry}
use mcp_plugin.Plugin.Upstream.{Upstream, Host}
use mcp_plugin.Plugin.Args.Value.{Value, Decoders}
use mcp_plugin.Plugin.Args.Coerce.{convert_args}
use mcp_plugin.Plugin.Args.ToolNames.{resolve_tool_name_args}
use mcp_plugin.Plugin.Args.IncludeFields.{sanitize_include_fields}
use mcp_plugin.Plugin.Args.Context.{CredentialHeader, credential_headers, forward}
use mcp_plugin.Plugin.Registry.Live.{reconnect}

-- `Request` of the host
pub record Request : Type 0 where
  pub id : Text
  pub action : Text
  pub args : Dict Text
  pub credential_headers : Dict CredentialHeader

-- `Response`: `panic` is the panic of a slice out of range, on which the handler returns nothing.
pub data Response : Type 0 where
  content : (call_id text structured : Text) → Response
  error : (call_id message : Text) → Response
  panic : Response

-- What a call leaves: the response, the registry (none before it is configured) and the rest.
abbrev pub Outcome : Type 0 → Type 0
Outcome W = Response × Option Registry × W

module _ {W : Type 0} (host : Host W) where
  unfoldable pub answered : Text → Registry → Result (Text × Text) × W → Outcome W
  answered id reg (ok (text, structured), w) = (content id text structured, some reg, w)
  answered id reg (err e, w) = (error id e, some reg, w)

  -- The headers and the arguments of the call, and the call.
  unfoldable pub call_with : Request → Entry → ℕ → Registry → Dict Value × Dict Text → W → Outcome W
  call_with req e client reg call w =
      answered req.id reg (host.upstream.call_tool client e.mcp_tool_name call.0 call.1 w)

  unfoldable pub forward_and_call : Request → Entry → ℕ → Registry → Dict Value → W → Outcome W
  forward_and_call req e client reg args w =
      call_with req e client reg
        (forward e.cfg.context_headers
          (args, credential_headers (lookup e.cfg.server req.credential_headers)))
        w

  -- The conversion of the arguments, up to the sanitizing that may panic. The action names are
  -- resolved against the registry as it is after a reconnect.
  unfoldable pub converted : Request → Entry → Registry → Option (Dict Value)
  converted req e reg =
      sanitize_include_fields host.decoders.unicode e.schema.properties (
        resolve_tool_name_args reg.actions
          (convert_args host.decoders e.schema.properties req.args))

  unfoldable pub call_live : Request → Entry → ℕ → Registry → W → Outcome W
  call_live req e client reg w = elim (converted req e reg) [
    | none ↦ (panic, some reg, w)
    | some args ↦ forward_and_call req e client reg args w
  ]

  unfoldable pub offline_message : Text → Text → Text
  offline_message server e =
      codes "MCP server "
      ++ (host.quote server ++ (codes " is offline (reconnect failed: " ++ (e ++ codes ")")))

  unfoldable pub after_reconnect : Request → Entry → Result ℕ × Registry × W → Outcome W
  after_reconnect req e (err msg, reg, w) =
      (error req.id (offline_message e.cfg.server msg), some reg, w)
  after_reconnect req e (ok client, reg, w) = call_live req e client reg w

  -- The entry's client, if it has one that is alive; else a new connection.
  unfoldable pub execute_client : Option ℕ → Request → Entry → Registry → W → Outcome W
  execute_client none req e reg w = after_reconnect req e (reconnect host e.cfg reg w)
  execute_client (some client) req e reg w =
      if host.upstream.is_alive client w
      then call_live req e client reg w
      else after_reconnect req e (reconnect host e.cfg reg w)

  -- `Execute`
  unfoldable pub execute : Request → Option Registry → W → Outcome W
  execute req none w = (error req.id (codes "mcp-plugin: not yet configured"), none, w)
  execute req (some reg) w = elim (lookup req.action reg.actions) [
    | none ↦ (error req.id (codes "unknown action " ++ host.quote req.action), some reg, w)
    | some e ↦ execute_client e.client req e reg w
  ]
