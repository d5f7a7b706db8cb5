-- ===== src/Mcp/Client/Connect.antt =====
-- mcp/client.go: `Connect`, `tryStreamableHTTP`, `connectSSE`, `sendInitialize`, `finishInitialize`,
-- `decodeInitResult`, `isTransientHTTPErr` and `FallbackSSE`.
use mcp_plugin.Base.Tests.{
  ℕ, Bool, ◌||◌, Option, none, some, [], ◌∷◌, ◌++◌, if◌then◌else◌, is_some, Result, ok, err,
}
use mcp_plugin.Base.Text.{Text, codes, index}
use mcp_plugin.Mcp.Types.Payloads.{InitializeResult, decode_init}
use mcp_plugin.Mcp.Types.Results.{error_string}
use mcp_plugin.Mcp.Client.Transport.{
  Transport, streamable, sse, initialize, initialized, RpcReply, Wire, Client, next_id,
}

-- The messages of `io.EOF` and `io.ErrUnexpectedEOF` hold "EOF", and an error that wraps one of them
-- holds its message, so the tests by `errors.Is` add nothing to those on the text.
unfoldable pub is_transient_http_err : Text → Bool
is_transient_http_err msg =
    is_some (index msg (codes "EOF"))
    || is_some (index msg (codes "connection reset"))
    || is_some (index msg (codes "broken pipe"))

-- The result of a step that may fail: a message or none, the client and the rest.
abbrev pub Tried : Type 0 → Type 0
Tried W = Option Text × Client × W

abbrev pub nothing : InitializeResult
nothing = record { instructions = []; glossary = []; knowledge_articles = [] }

module _ {W : Type 0} (wire : Wire W) where
  -- `decodeInitResult`
  unfoldable pub decode_init_result : Text → InitializeResult
  decode_init_result [] = nothing
  decode_init_result (x ∷ raw) = elim (decode_init wire.shape (x ∷ raw)) [
    | none ↦ nothing
    | some r ↦ r
  ]

  -- `sendInitialize`, on the client whose counter is already advanced
  unfoldable pub send_initialize : Transport → Client → W → Result RpcReply × W
  send_initialize tp c w =
      wire.round_trip tp (record { id = some c.id_counter; call = initialize }) 15 [] w

  unfoldable pub keep_init : InitializeResult → Client → Client
  keep_init r c = record c {
    instructions = r.instructions;
    glossary = r.glossary;
    knowledge_articles = r.knowledge_articles;
  }

  -- `finishInitialize`
  unfoldable pub finish_initialize : Transport → RpcReply → Client → W → Tried W
  finish_initialize tp resp c w = elim resp.failed [
    | some e ↦ (
      some (
          codes "server "
          ++ (c.cfg.server ++ (codes ": initialize: " ++ error_string wire.shape e))),
      c,
      w,
    )
    | none ↦ (
      none,
      record (keep_init (decode_init_result resp.result) c) { tp = some tp },
      wire.notify tp (record { id = none; call = initialized }) w,
    )
  ]

  -- The caller's part: it closes the transport if the handshake failed.
  unfoldable pub close_failed : Transport → Tried W → Tried W
  close_failed tp (none, c, w) = (none, c, w)
  close_failed tp (some e, c, w) = (some e, c, wire.close tp w)

  -- The handshake on an open transport; `prefixed` is how the caller reports a failed round trip.
  unfoldable pub shake : Transport → (Text → Text) → Result RpcReply × W → Client → Tried W
  shake tp prefixed (err e, w) c = (some (prefixed e), c, wire.close tp w)
  shake tp prefixed (ok resp, w) c = close_failed tp (finish_initialize tp resp c w)

  -- `tryStreamableHTTP`
  unfoldable pub try_streamable : Client → W → Tried W
  try_streamable c w =
      let (n, w') = wire.open_streamable c.cfg w in
      shake (streamable n) (λ e. e) (send_initialize (streamable n) (next_id c) w') (next_id c)

  unfoldable pub sse_opened : Result ℕ → Client → W → Tried W
  sse_opened (err e) c w =
      (some (codes "server " ++ (c.cfg.server ++ (codes ": SSE: " ++ e))), c, w)
  sse_opened (ok n) c w =
      shake (sse n) (λ e. codes "server " ++ (c.cfg.server ++ (codes ": initialize: " ++ e)))
        (send_initialize (sse n) (next_id c) w) (next_id c)

  -- `connectSSE`
  unfoldable pub connect_sse : Client → W → Tried W
  connect_sse c w = let (r, w') = wire.open_sse c.cfg w in sse_opened r c w'

  -- After the second attempt: its error, whatever it is, leads to SSE.
  unfoldable pub second_tried : Tried W → Tried W
  second_tried (none, c, w) = (none, c, w)
  second_tried (some e, c, w) = connect_sse c w

  -- After the first attempt: a transient error is worth one more.
  unfoldable pub first_tried : Tried W → Tried W
  first_tried (none, c, w) = (none, c, w)
  first_tried (some e, c, w) =
      let again = second_tried (try_streamable c w) in
      let fallen = connect_sse c w in if is_transient_http_err e then again else fallen

  -- `Connect`
  unfoldable pub connect : Client → W → Tried W
  connect c w = first_tried (try_streamable c w)

  unfoldable pub close_old : Option Transport → W → W
  close_old none w = w
  close_old (some tp) w = wire.close tp w

  -- `FallbackSSE`, which its caller calls on a connected client
  unfoldable pub fallback_sse : Client → W → Tried W
  fallback_sse c w = connect_sse (record c { tp = none; id_counter = 0 }) (close_old c.tp w)
