-- ===== src/Mcp/Streamable.antt =====
-- mcp/streamable.go: `roundTrip`, `decodeSSEResponse` and `notify` over HTTP.
pub mod Session
use mcp_plugin.Base.Tests.{
  ℕ, Bool, not, ◌&&◌, Option, none, some, List, [], ◌∷◌, ◌++◌, leb, ltb, nat_eq, if◌then◌else◌,
  is_some, length, Result, ok, err,
}
use mcp_plugin.Base.Text.{Text, codes, ◌==◌, index, Unicode}
use mcp_plugin.Base.Dict.{Dict, lookup}
use mcp_plugin.Mcp.Headers.{set_all, outbound}
use mcp_plugin.Mcp.Sse.Frames.{sse_max_token_size, scanned, first_payload}
use mcp_plugin.Mcp.Client.Transport.{RpcRequest, RpcReply}

-- A response of the HTTP client, with the first value of each header and the whole body.
pub record HttpReply : Type 0 where
  pub status : ℕ
  pub headers : Dict Text
  pub body : Text

-- What the transport uses of Go's library; an error is its message.
pub record Http (W : Type 0) : Type 0 where
  -- `json.Marshal` of a request
  pub encode : RpcRequest → Result Text
  -- `http.NewRequestWithContext`: a message for a URL that it refuses
  pub refuse : Text → Option Text
  -- one POST: the timeout in seconds, if there is one, the URL, the headers and the body
  pub exchange : Option ℕ → Text → Dict Text → Text → W → Result HttpReply × W
  -- `json.Unmarshal`, and a decoder that reads one value
  pub unmarshal : Text → Result RpcReply
  pub decode_one : Text → Result RpcReply
  -- the lines that `bufio.ScanLines` splits a body into
  pub lines : Text → List Text
  -- the verb %d of fmt
  pub decimal : ℕ → Text
  pub unicode : Unicode

-- `streamableHTTP`, with the headers of its HTTP client's `headerTransport`
pub record StreamableHttp : Type 0 where
  pub url : Text
  pub session_id : Text
  pub static : Dict Text

abbrev pub session_key : Text
session_key = codes "Mcp-Session-Id"

-- `Header.Get` for a key in its canonical form
unfoldable pub get : Text → Dict Text → Text
get key headers = elim (lookup key headers) [ none ↦ [] | some v ↦ v ]

unfoldable pub session_header : Text → Dict Text
session_header [] = []
session_header (c ∷ sid) = (session_key, c ∷ sid) ∷ []

-- The headers that `roundTrip` sets on its request.
unfoldable pub request_headers : StreamableHttp → Dict Text
request_headers s =
    set_all
      ((codes "Content-Type", codes "application/json")
        ∷ (codes "Accept", codes "application/json, text/event-stream")
        ∷ session_header s.session_id)
      []

-- The headers that `notify` sets on its request.
unfoldable pub notify_headers : StreamableHttp → Dict Text
notify_headers s =
    set_all ((codes "Content-Type", codes "application/json") ∷ session_header s.session_id) []

unfoldable pub is_success : ℕ → Bool
is_success status = leb 200 status && ltb status 300

-- A session id in the reply replaces the one that was kept.
unfoldable pub keep_session : HttpReply → StreamableHttp → StreamableHttp
keep_session reply s = elim (get session_key reply.headers) [
  | [] ↦ s
  | c ∷ sid ↦ record s { session_id = c ∷ sid }
]

unfoldable pub prefixed : {A : Type 0} → Text → Result A → Result A
prefixed p (err e) = err (p ++ e)
prefixed p (ok a) = ok a

module _ {W : Type 0} (http : Http W) where
  -- `decodeSSEResponse`
  unfoldable pub decode_sse_response : List Text → Result RpcReply
  decode_sse_response lines = elim (first_payload http.unicode (scanned sse_max_token_size lines)) [
    | some payload ↦ prefixed (codes "decode SSE data: ") (http.unmarshal payload)
    | none ↦
        if nat_eq (length (scanned sse_max_token_size lines)) (length lines)
        then err (codes "no data event in SSE response")
        else err (codes "read SSE stream: bufio.Scanner: token too long")
  ]

  unfoldable pub decode_reply : HttpReply → Result RpcReply
  decode_reply reply =
      if is_some (index (get (codes "Content-Type") reply.headers) (codes "text/event-stream"))
      then decode_sse_response (http.lines reply.body)
      else http.decode_one reply.body

  -- What `roundTrip` makes of the outcome of its POST.
  unfoldable pub replied : Result HttpReply → StreamableHttp → Result RpcReply × StreamableHttp
  replied (err e) s = (err (codes "POST: " ++ e), s)
  replied (ok reply) s =
      if is_success reply.status
      then (prefixed (codes "decode response: ") (decode_reply reply), keep_session reply s)
      else (err (codes "POST: HTTP " ++ http.decimal reply.status), s)

  abbrev pub post : RpcRequest → ℕ → Dict Text → StreamableHttp → Text → W → Result HttpReply × W
  post req timeout extra s body w =
      http.exchange (some timeout) s.url (outbound s.static extra (request_headers s)) body w

  unfoldable pub posted :
      Result HttpReply × W → StreamableHttp → Result RpcReply × StreamableHttp × W
  posted (r, w) s = let (result, s') = replied r s in (result, s', w)

  -- `roundTrip`
  unfoldable pub round_trip :
      RpcRequest → ℕ → Dict Text → StreamableHttp → W → Result RpcReply × StreamableHttp × W
  round_trip req timeout extra s w = elim (http.encode req) [
    | err e ↦ (err (codes "encode request: " ++ e), s, w)
    | ok body ↦ elim (http.refuse s.url) [
      | some e ↦ (err (codes "build POST: " ++ e), s, w)
      | none ↦ posted (post req timeout extra s body w) s
    ]
  ]

  unfoldable pub notified : Result HttpReply × W → StreamableHttp → Option Text × StreamableHttp × W
  notified (err e, w) s = (some (codes "POST: " ++ e), s, w)
  notified (ok reply, w) s = (none, keep_session reply s, w)

  -- `notify`: no timeout, no headers of its own, and any status is accepted.
  unfoldable pub notify : RpcRequest → StreamableHttp → W → Option Text × StreamableHttp × W
  notify req s w = elim (http.encode req) [
    | err e ↦ (some (codes "encode notification: " ++ e), s, w)
    | ok body ↦ elim (http.refuse s.url) [
      | some e ↦ (some (codes "build POST: " ++ e), s, w)
      | none ↦
          notified (http.exchange none s.url (outbound s.static [] (notify_headers s)) body w) s
    ]
  ]
