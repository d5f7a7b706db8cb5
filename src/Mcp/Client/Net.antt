-- ===== src/Mcp/Client/Net.antt =====
-- The two transports of mcp/streamable.go and mcp/sse.go, as the interface that the client uses: all
-- transport objects of the process, the newest first, each with whether its context is cancelled. An
-- SSE connection counts from `newSSEConn`, which makes its context, before it is connected.
pub mod Tracked
use mcp_plugin.Base.Tests.{
  ℕ, Bool, true, false, ◌&&◌, not, Option, none, some, List, [], ◌∷◌, ◌++◌, nat_eq, length,
  if◌then◌else◌, Result, ok, err,
}
use mcp_plugin.Base.Text.{Text, codes}
use mcp_plugin.Base.Arena.{fetch, store}
use mcp_plugin.Base.Dict.{Dict}
use mcp_plugin.Json.Decode.{Scanner}
use mcp_plugin.Config.Expand.{ServerConfig}
use mcp_plugin.Mcp.Streamable.{Http, StreamableHttp}
use mcp_plugin.Mcp.Streamable
use mcp_plugin.Mcp.Sse.Post.{SseTransport, Streams, Opening, not_read, stream_ended, posts_to}
use mcp_plugin.Mcp.Sse.Post
use mcp_plugin.Mcp.Client.Transport.{Transport, streamable, sse, RpcRequest, RpcReply, Wire}

pub data Protocol : Type 0 where
  posts : StreamableHttp → Protocol
  streams : SseTransport → Protocol

-- `is_open` until the context is cancelled by `close`, or by the end of the stream while the
-- connection waits for its endpoint; `has_ended` below is the end of the stream afterwards.
pub record Link : Type 0 where
  pub protocol : Protocol
  pub is_open : Bool

pub record Net (W : Type 0) : Type 0 where
  pub links : List Link
  pub rest : W

-- `cancel` of the transport's context
unfoldable pub cancel : ℕ → List Link → List Link
cancel n [] = []
cancel n (l ∷ ls) =
    let older = l ∷ cancel n ls in
    if nat_eq n (length ls) then record l { is_open = false } ∷ ls else older

abbrev pub number : Transport → ℕ
number (streamable n) = n
number (sse n) = n

module _ {W : Type 0} (http : Http W) (outside : Streams W) (shape : Scanner) where
  -- `newStreamableHTTP`
  unfoldable pub open_streamable : ServerConfig → Net W → ℕ × Net W
  open_streamable cfg w = (
    length w.links,
    record w {
      links =
          record {
            protocol = posts (record { url = cfg.url; session_id = []; static = cfg.headers });
            is_open = true;
          }
          ∷ w.links;
    },
  )

  unfoldable pub sse_link : ServerConfig → Text → Bool → Link
  sse_link cfg endpoint is_open = record {
    protocol = streams (record { endpoint = endpoint; static = cfg.headers });
    is_open = is_open;
  }

  -- The connection's link stays where it fails: `connectSSE` does not close it, and only the read
  -- loop, if it was started, has cancelled its context.
  unfoldable pub sse_connected : ServerConfig → Opening → W → List Link → Result ℕ × Net W
  sse_connected cfg (not_read e) w links =
      (err e, record { links = sse_link cfg [] true ∷ links; rest = w })
  sse_connected cfg (stream_ended e) w links =
      (err e, record { links = sse_link cfg [] false ∷ links; rest = w })
  sse_connected cfg (posts_to endpoint) w links =
      (ok (length links), record { links = sse_link cfg endpoint true ∷ links; rest = w })

  -- `newSSEConn` and `connect`
  unfoldable pub open_sse : ServerConfig → Net W → Result ℕ × Net W
  open_sse cfg w =
      let (r, rest) = Post.connect http outside cfg.headers cfg.url w.rest in
      sse_connected cfg r rest w.links

  unfoldable pub has_ended : Protocol → W → Bool
  has_ended (posts s) w = false
  has_ended (streams s) w = outside.ended s.endpoint w

  -- The HTTP client under a context: every exchange fails once it is cancelled.
  unfoldable pub under : Bool → Http W
  under true = http
  under false = record http { exchange = λ timeout url headers body w. (err outside.cancelled, w) }

  unfoldable pub trip_posted :
      ℕ → Link → List Link → Result RpcReply × StreamableHttp × W → Result RpcReply × Net W
  trip_posted n l links (r, s, w) =
      (r, record { links = store n (record l { protocol = posts s }) links; rest = w })

  abbrev pub unreachable : Net W → Result RpcReply × Net W
  unreachable w = (err (codes "POST: " ++ outside.cancelled), w)

  unfoldable pub trip_on :
      Http W → ℕ → Link → Protocol → RpcRequest → ℕ → Dict Text → Net W → Result RpcReply × Net W
  trip_on client n l (posts s) req seconds extra w =
      trip_posted n l w.links (Streamable.round_trip client req seconds extra s w.rest)
  trip_on client n l (streams s) req seconds extra w =
      let (r, rest) = Post.round_trip client outside req seconds extra s w.rest in
      (r, record w { rest = rest })

  abbrev pub is_usable : Link → Net W → Bool
  is_usable l w = l.is_open && not (has_ended l.protocol w.rest)

  -- `roundTrip`. A request on a cancelled context, also that of a stream which has ended, fails in
  -- its POST.
  unfoldable pub round_trip :
      Transport → RpcRequest → ℕ → Dict Text → Net W → Result RpcReply × Net W
  round_trip tp req seconds extra w = elim (fetch (number tp) w.links) [
    | none ↦ unreachable w
    | some l ↦ trip_on (under (is_usable l w)) (number tp) l l.protocol req seconds extra w
  ]

  unfoldable pub note_posted : ℕ → Link → List Link → Option Text × StreamableHttp × W → Net W
  note_posted n l links (e, s, w) = record {
    links = store n (record l { protocol = posts s }) links;
    rest = w;
  }

  unfoldable pub note_on : Http W → ℕ → Link → Protocol → RpcRequest → Net W → Net W
  note_on client n l (posts s) req w =
      note_posted n l w.links (Streamable.notify client req s w.rest)
  note_on client n l (streams s) req w = record w { rest = (Post.notify client req s w.rest).1 }

  -- `notify`
  unfoldable pub notify : Transport → RpcRequest → Net W → Net W
  notify tp req w = elim (fetch (number tp) w.links) [
    | none ↦ w
    | some l ↦ note_on (under (is_usable l w)) (number tp) l l.protocol req w
  ]

  -- `close`
  unfoldable pub close : Transport → Net W → Net W
  close tp w = record w { links = cancel (number tp) w.links }

  -- Whether `context` is done: the read loop of a stream that has ended cancels it as well.
  unfoldable pub is_done : Transport → Net W → Bool
  is_done tp w = elim (fetch (number tp) w.links) [ none ↦ true | some l ↦ not (is_usable l w) ]

  abbrev pub wire : Wire (Net W)
  wire = record {
    open_streamable = open_streamable;
    open_sse = open_sse;
    round_trip = round_trip;
    notify = notify;
    close = close;
    is_done = is_done;
    shape = shape;
  }
