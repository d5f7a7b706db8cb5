-- ===== src/Mcp/Client/Calls.antt =====
-- mcp/client.go: `ListTools`, `CallTool`, `IsStreamableHTTP`, `IsAlive`, `Close`.
use mcp_plugin.Base.Tests.{
  Bool, true, false, not, Option, none, some, List, [], ◌∷◌, ◌++◌, if◌then◌else◌, Result, ok, err,
}
use mcp_plugin.Base.Text.{Text, codes, join}
use mcp_plugin.Base.Dict.{Dict}
use mcp_plugin.Mcp.Types.Tools.{Tool, decode_tools}
use mcp_plugin.Mcp.Types.Payloads.{Content, ToolsCallResult, decode_call}
use mcp_plugin.Mcp.Types.Results.{error_string, structured_payload}
use mcp_plugin.Plugin.Args.Value.{Value}
use mcp_plugin.Mcp.Client.Transport.{
  Transport, streamable, sse, tools_list, tools_call, RpcReply, Wire, Client, next_id,
}

-- The texts of the content items that are not empty.
unfoldable pub texts : List Content → List Text
texts [] = []
texts (c ∷ cs) = elim c.text [ [] ↦ texts cs | x ∷ t ↦ (x ∷ t) ∷ texts cs ]

-- `IsStreamableHTTP`
unfoldable pub is_streamable_http : Option Transport → Bool
is_streamable_http none = false
is_streamable_http (some (streamable n)) = true
is_streamable_http (some (sse n)) = false

module _ {W : Type 0} (wire : Wire W) where
  unfoldable pub tools_of : Result RpcReply → Result (List Tool)
  tools_of (err e) = err e
  tools_of (ok resp) = elim resp.failed [
    | some e ↦ err (codes "tools/list: " ++ error_string wire.shape e)
    | none ↦ elim (decode_tools wire.shape resp.result) [
      | none ↦ err (codes "decode tools/list")
      | some tools ↦ ok tools
    ]
  ]

  -- `ListTools` on the client's transport; the client's counter has moved on afterwards.
  unfoldable pub list_tools : Transport → Client → W → Result (List Tool) × Client × W
  list_tools tp c w =
      let (r, w') =
        wire.round_trip tp (record { id = some (next_id c).id_counter; call = tools_list }) 30 []
          w in
      (tools_of r, next_id c, w')

  -- The content and the structured content of a result, or the error that its body reports.
  unfoldable pub read_call : Text → ToolsCallResult → Result (Text × Text)
  read_call name r =
      if r.is_error
      then err
          (codes "tool " ++ (name ++ (codes " error: " ++ join (texts r.content) (codes "; "))))
      else ok (join (texts r.content) (10 ∷ []), structured_payload r.structured_content)

  unfoldable pub call_result : Text → Result RpcReply → Result (Text × Text)
  call_result name (err e) = err e
  call_result name (ok resp) = elim resp.failed [
    | some e ↦ err (codes "tools/call " ++ (name ++ (codes ": " ++ error_string wire.shape e)))
    | none ↦ elim (decode_call wire.shape resp.result) [
      | none ↦ err (codes "decode tools/call")
      | some r ↦ read_call name r
    ]
  ]

  -- `CallTool`
  unfoldable pub call_tool :
      Transport → Text → Dict Value → Dict Text → Client → W → Result (Text × Text) × Client × W
  call_tool tp name args headers c w =
      let (r, w') =
        wire.round_trip tp
          (record { id = some (next_id c).id_counter; call = tools_call name args }) 60 headers w in
      (call_result name r, next_id c, w')

  unfoldable pub alive : Option Transport → W → Bool
  alive none w = false
  alive (some tp) w = not (wire.is_done tp w)

  -- `IsAlive`
  unfoldable pub is_alive : Client → W → Bool
  is_alive c w = alive c.tp w

  -- `Close`
  unfoldable pub close : Client → W → W
  close c w = elim c.tp [ none ↦ w | some tp ↦ wire.close tp w ]
