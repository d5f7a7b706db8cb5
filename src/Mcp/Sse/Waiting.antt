-- ===== src/Mcp/Sse/Waiting.antt =====
-- mcp/sse.go: `roundTrip`, `dispatch` and the timers of one connection, interleaved. A step is what
-- one goroutine does between two points where others may run.
pub mod Delivery
pub mod Blocked
use mcp_plugin.Base.Tests.{
  ℕ, Bool, true, false, ◌≡◌, ◌||◌, Option, none, some, List, [], ◌∷◌, ◌++◌, nat_eq, if◌then◌else◌,
  Result, ok, err,
}
use mcp_plugin.Base.Text.{Text, codes}
use mcp_plugin.Base.Int.{ℤ, pos}
use mcp_plugin.Mcp.Sse.Conn.{RpcResponse, Conn, channel, subscribe, unsubscribe, dispatch, key_of}

-- Where the call with this id is: not started; in its POST; in the `select`; returned.
pub data Phase : Type 0 where
  idle posting waiting : Phase
  returned : Result RpcResponse → Phase

-- Where the read loop is: reading; blocked in its send to the channel of a call; ended.
pub data Reader : Type 0 where
  reading ended : Reader
  blocked : ℕ → Reader

-- One connection. A call's id is that of its request; the client never uses one twice.
pub record Stream : Type 0 where
  pub conn : Conn
  pub phase : ℕ → Phase
  pub reader : Reader
  pub closed : Bool

-- `newSSEConn`, with its read loop
abbrev pub new_stream : Stream
new_stream = record {
  conn = record { pending = []; endpoint = none };
  phase = λ n. idle;
  reader = reading;
  closed = false;
}

abbrev pub at : ℕ → Phase → (ℕ → Phase) → ℕ → Phase
at n p phase m = if nat_eq n m then p else phase m

-- `subscribe`, and the POST begins.
unfoldable pub begin : ℕ → Stream → Stream
begin n s = record s { conn = subscribe (pos n) s.conn; phase = at n posting s.phase }

-- The POST is accepted.
unfoldable pub await : ℕ → Stream → Stream
await n s = record s { phase = at n waiting s.phase }

-- A receive by the call `n` makes room in its channel, so a send to it that was blocked goes through.
unfoldable pub freed : ℕ → Reader → Reader
freed n (blocked m) = if nat_eq n m then reading else blocked m
freed n reading = reading
freed n ended = ended

-- Every return of `roundTrip` runs the deferred `unsubscribe`.
unfoldable pub finish : ℕ → Result RpcResponse → Stream → Stream
finish n r s = record s { conn = unsubscribe (pos n) s.conn; phase = at n (returned r) s.phase }

-- The first case of the `select`.
unfoldable pub receive : ℕ → RpcResponse → Stream → Stream
unfolding finish
receive n resp s = record (finish n (ok resp) s) { reader = freed n s.reader }

-- `close`, or the end of the read loop.
unfoldable pub shut : Stream → Stream
shut s = record s { closed = true }

module _ (to_int64 : ℕ → ℤ) where
  pub data Step (s : Stream) (t : Stream) : Type 0 where
    begun : (n : ℕ) → s.phase n ≡ idle → t ≡ begin n s → Step s t
    refused :
        (n : ℕ) (message : Text) → s.phase n ≡ posting → t ≡ finish n (err message) s → Step s t
    accepted : (n : ℕ) → s.phase n ≡ posting → t ≡ await n s → Step s t
    received :
        (n : ℕ) (resp : RpcResponse)
        → s.phase n ≡ waiting
        → channel (pos n) s.conn.pending ≡ some (some resp)
        → t ≡ receive n resp s
        → Step s t
    timed_out :
        (n : ℕ) (message : Text) → s.phase n ≡ waiting → t ≡ finish n (err message) s → Step s t
    cut_off :
        (n : ℕ) (message : Text)
        → s.phase n ≡ waiting
        → s.closed ≡ true
        → t ≡ finish n (err message) s
        → Step s t
    -- the read loop dispatches a response
    arrived :
        (resp : RpcResponse) (conn : Conn)
        → s.reader ≡ reading
        → dispatch to_int64 resp s.conn ≡ some conn
        → t ≡ record s { conn = conn }
        → Step s t
    -- the channel of the call `n` is full
    stalled :
        (resp : RpcResponse) (n : ℕ)
        → s.reader ≡ reading
        → key_of to_int64 resp.id ≡ some (pos n)
        → dispatch to_int64 resp s.conn ≡ none
        → t ≡ record s { reader = blocked n }
        → Step s t
    -- the stream ends, and the read loop's deferred call cancels the context
    drained : s.reader ≡ reading → t ≡ record (shut s) { reader = ended } → Step s t
    shut_down : t ≡ shut s → Step s t

  pub data Reach (s : Stream) : Stream → Type 0 where
    here : Reach s s
    next : {t u : Stream} → Reach s t → Step t u → Reach s u
