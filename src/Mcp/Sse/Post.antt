-- ===== src/Mcp/Sse/Post.antt =====
-- mcp/sse.go: `post`, `notify` and `connect` over HTTP, and `resolveEndpoint` of mcp/client.go.
use mcp_plugin.Base.Tests.{
  ℕ, Bool, ◌&&◌, Option, none, some, List, [], ◌∷◌, ◌++◌, nat_eq, if◌then◌else◌, Result, ok, err,
}
use mcp_plugin.Base.Text.{Text, codes, ◌==◌, trim_space}
use mcp_plugin.Base.Dict.{Dict}
use mcp_plugin.Mcp.Headers.{set_all, outbound}
use mcp_plugin.Mcp.Sse.Frames.{Event, read_stream}
use mcp_plugin.Mcp.Client.Transport.{
  Call, initialize, initialized, tools_list, tools_call, RpcRequest, RpcReply,
}
use mcp_plugin.Mcp.Streamable.{HttpReply, Http, is_success}

-- `sseTransport`: the POST endpoint, and the static headers of its HTTP client.
pub record SseTransport : Type 0 where
  pub endpoint : Text
  pub static : Dict Text

-- The cases of the `select` of `roundTrip`.
pub data Wait : Type 0 where
  response : RpcReply → Wait
  timeout closed : Wait

-- The outcome of `connect`: an error before the read loop is started, an error after its end, which
-- cancels the context, or the endpoint.
pub data Opening : Type 0 where
  not_read stream_ended : (message : Text) → Opening
  posts_to : Text → Opening

-- `Method` of a request
unfoldable pub method_name : Call → Text
method_name initialize = codes "initialize"
method_name initialized = codes "notifications/initialized"
method_name tools_list = codes "tools/list"
method_name (tools_call name args) = codes "tools/call"

-- What `connect` uses besides: the GET of a stream, with its status and all lines that ever arrive on
-- it; net/url, for two URLs that parse; and the message of a cancelled context.
pub record Streams (W : Type 0) : Type 0 where
  pub get : Text → Dict Text → W → Result (ℕ × List Text) × W
  pub parses : Text → Bool
  pub resolve_reference : Text → Text → Text
  pub cancelled : Text
  -- what the `select` of a call comes to: its transport's endpoint, its id and its timeout
  pub select : Text → ℕ → ℕ → W → Wait × W
  -- whether the stream of this endpoint has ended
  pub ended : Text → W → Bool

module _ {W : Type 0} (http : Http W) where
  unfoldable pub accepted : Result HttpReply × W → Option Text × W
  accepted (err e, w) = (some (codes "POST: " ++ e), w)
  accepted (ok reply, w) = (
    (if is_success reply.status
        then none
        else some (codes "POST: HTTP " ++ http.decimal reply.status)),
    w,
  )

  -- `post`; no message is success. The context has no deadline of its own.
  unfoldable pub post : RpcRequest → Dict Text → SseTransport → W → Option Text × W
  post req extra s w = elim (http.encode req) [
    | err e ↦ (some (codes "encode request: " ++ e), w)
    | ok body ↦ elim (http.refuse s.endpoint) [
      | some e ↦ (some (codes "build POST: " ++ e), w)
      | none ↦ accepted (
          http.exchange none s.endpoint
            (outbound s.static extra
              (set_all ((codes "Content-Type", codes "application/json") ∷ []) []))
            body w)
    ]
  ]

  -- `notify`
  unfoldable pub notify : RpcRequest → SseTransport → W → Option Text × W
  notify req s w = post req [] s w

  module _ (streams : Streams W) where
    -- `resolveEndpoint`
    unfoldable pub resolve_endpoint : Text → Text → Text
    resolve_endpoint sse_url endpoint =
        if streams.parses sse_url && streams.parses endpoint
        then streams.resolve_reference sse_url endpoint
        else endpoint

    -- What the endpoint channel of a new connection receives: the first endpoint event's URL.
    unfoldable pub first_endpoint : Text → List Event → Option Text
    first_endpoint sse_url [] = none
    first_endpoint sse_url ((event_type, text) ∷ events) =
        let rest = first_endpoint sse_url events in
        if event_type == codes "endpoint"
        then some (resolve_endpoint sse_url (trim_space http.unicode text))
        else rest

    -- The wait of `connect`: the read loop cancels the context when the stream ends.
    unfoldable pub awaited : Option Text → Opening
    awaited none = stream_ended streams.cancelled
    awaited (some endpoint) = posts_to endpoint

    unfoldable pub opened : Text → Result (ℕ × List Text) → Opening
    opened sse_url (err e) = not_read (codes "SSE connect: " ++ e)
    opened sse_url (ok (status, lines)) =
        if nat_eq status 200
        then awaited (first_endpoint sse_url (read_stream http.unicode lines))
        else not_read (codes "SSE connect: HTTP " ++ http.decimal status)

    -- `connect`
    unfoldable pub connect : Dict Text → Text → W → Opening × W
    connect static sse_url w = elim (http.refuse sse_url) [
      | some e ↦ (not_read (codes "build SSE request: " ++ e), w)
      | none ↦
          (let (r, w') =
              streams.get sse_url
                (outbound static [] (
                  set_all
                    ((codes "Accept", codes "text/event-stream")
                      ∷ (codes "Cache-Control", codes "no-cache")
                      ∷ [])
                    []))
                w in
            (opened sse_url r, w'))
    ]

    unfoldable pub selected : Text → Wait × W → Result RpcReply × W
    selected method (response r, w) = (ok r, w)
    selected method (timeout, w) = (err (method ++ codes ": timeout"), w)
    selected method (closed, w) = (err (codes "SSE closed during " ++ method), w)

    unfoldable pub awaited_reply : Text → ℕ → ℕ → Text → Option Text × W → Result RpcReply × W
    awaited_reply method id seconds endpoint (some e, w) = (err e, w)
    awaited_reply method id seconds endpoint (none, w) =
        selected method (streams.select endpoint id seconds w)

    -- `roundTrip`, as its caller sees it; Waiting has the steps of which `select` is the outcome.
    unfoldable pub round_trip : RpcRequest → ℕ → Dict Text → SseTransport → W → Result RpcReply × W
    round_trip req seconds extra s w = elim req.id [
      | none ↦ (err (codes "roundTrip requires a request ID"), w)
      | some id ↦ awaited_reply (method_name req.call) id seconds s.endpoint (post req extra s w)
    ]
