-- ===== src/Tests/Waiting.antt =====
-- Runs of one event stream with a call that waits on it.
use mcp_plugin.Base.Tests.{ℕ, ◌≡◌, refl, none, some, [], err, ok}
use mcp_plugin.Base.Text.{codes}
use mcp_plugin.Base.Int.{ℤ, pos}
use mcp_plugin.Mcp.Sse.Conn.{
  int64, RpcResponse, Conn, key_of, dispatch, subscribe, channel, int_eq, put_channel,
}
use mcp_plugin.Mcp.Sse.Waiting.{
  returned, finish, blocked, Stream, new_stream, begin, await, begun, accepted, Reach, here, next,
}
use mcp_plugin.Mcp.Sse.Waiting.Delivery.{IsSound, Reach-IsSound}
use mcp_plugin.Mcp.Sse.Waiting.Blocked.{waiting_call_returns, double_answer_wedges}

abbrev answer : RpcResponse
answer = record { id = int64 (pos 3); result = codes "1"; failed = none }

abbrev bits_as_int : ℕ → ℤ
bits_as_int bits = pos bits

abbrev selecting : Stream
selecting = await 3 (begin 3 new_stream)

selecting_reached : Reach bits_as_int new_stream selecting
unfolding begin
selecting_reached = next (next here (begun 3 refl refl)) (accepted 3 refl refl)

Reach-IsSound_example : IsSound bits_as_int selecting
Reach-IsSound_example = Reach-IsSound bits_as_int selecting_reached

waiting_call_returns_example :
    (t : Stream) × (got : RpcResponse) × Reach bits_as_int selecting t
    × (t.phase 3 ≡ returned (ok got))
    × (key_of bits_as_int got.id ≡ some (pos 3))
unfolding begin await key_of
waiting_call_returns_example =
    waiting_call_returns bits_as_int selecting_reached 3 answer refl refl refl

double_answer_wedges_example :
    (filled : Conn) × (dispatch bits_as_int answer selecting.conn ≡ some filled)
    × (dispatch bits_as_int answer filled ≡ none)
    × Reach bits_as_int selecting
        (finish 3 (err []) (record selecting { conn = filled; reader = blocked 3 }))
    × ((t : Stream)
        → Reach bits_as_int
            (finish 3 (err []) (record selecting { conn = filled; reader = blocked 3 }))
            t
        → t.reader ≡ blocked 3)
unfolding key_of begin await subscribe channel int_eq put_channel
double_answer_wedges_example =
    double_answer_wedges bits_as_int 3 answer answer [] selecting refl refl refl refl refl
