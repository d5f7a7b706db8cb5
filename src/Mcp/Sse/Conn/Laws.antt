-- ===== src/Mcp/Sse/Conn/Laws.antt =====
-- Responses reach the caller that waits for them, and no other.
use mathlib.Core.Path.{subst}
use mathlib.Core.Option.{some-injective}
use mcp_plugin.Base.Tests.{
  ℕ, ◌≡◌, refl, sym, ◌∙◌, ◌↔◌, true, Option, none, some, [], ◌∷◌, arith, if◌then◌else◌,
}
use mcp_plugin.Base.Int.{ℤ, pos, negsuc}
use mcp_plugin.Mcp.Sse.Conn.{
  int_eq, RpcResponse, Pending, channel, put_channel, drop_channel, Conn, subscribe, unsubscribe,
  deliver, key_of, dispatch_key, dispatch,
}

pub int_eq_iff : (i j : ℤ) → (int_eq i j ≡ true) ↔ (i ≡ j)
unfolding int_eq
int_eq_iff (pos a) (pos b) = ground arith
int_eq_iff (negsuc a) (negsuc b) = ground arith
int_eq_iff (pos a) (negsuc b) = ground arith
int_eq_iff (negsuc a) (pos b) = ground arith

pub channel-put_channel :
    (i j : ℤ) (ch : Option RpcResponse) (p : Pending)
    → channel j (put_channel i ch p) ≡ (if int_eq i j then some ch else channel j p)
unfolding channel put_channel
channel-put_channel i j ch [] = refl
channel-put_channel i j ch ((k, old) ∷ p) =
    ground (arith, int_eq_iff i j, int_eq_iff k i, int_eq_iff k j, channel-put_channel i j ch p)

pub channel-drop_channel :
    (i j : ℤ) (p : Pending)
    → channel j (drop_channel i p) ≡ (if int_eq i j then none else channel j p)
unfolding channel drop_channel
channel-drop_channel i j [] = ground arith
channel-drop_channel i j ((k, old) ∷ p) =
    ground (arith, int_eq_iff i j, int_eq_iff k i, int_eq_iff k j, channel-drop_channel i j p)

pub int_eq_refl : (i : ℤ) → int_eq i i ≡ true
int_eq_refl i = (int_eq_iff i i).1 refl

pub channel_dropped : (i : ℤ) (p : Pending) → channel i (drop_channel i p) ≡ none
channel_dropped i p = channel-drop_channel i i p ∙ rw (int_eq_refl i)

pub channel_put :
    (i : ℤ) (ch : Option RpcResponse) (p : Pending) → channel i (put_channel i ch p) ≡ some ch
channel_put i ch p = channel-put_channel i i ch p ∙ rw (int_eq_refl i)

module _ (to_int64 : ℕ → ℤ) where
  -- While request `i` waits with an empty channel, a response with its id is put into its channel
  -- and into no other; what other requests have received is untouched.
  pub dispatch_delivers :
      (i j : ℤ) (resp : RpcResponse) (c : Conn)
      → key_of to_int64 resp.id ≡ some i
      → channel i c.pending ≡ some none
      → (c' : Conn) × (dispatch to_int64 resp c ≡ some c')
        × (channel j c'.pending ≡ (if int_eq i j then some (some resp) else channel j c.pending))
  unfolding dispatch dispatch_key deliver
  dispatch_delivers i j resp c key waits = (
    record c { pending = put_channel i (some resp) c.pending },
    rw (key, dispatch, waits, deliver),
    channel-put_channel i j (some resp) c.pending,
  )

  -- A request that has unsubscribed gets nothing any more: a late response to it is dropped.
  dispatch_unsubscribed :
      (i : ℤ) (resp : RpcResponse) (c : Conn)
      → key_of to_int64 resp.id ≡ some i
      → dispatch to_int64 resp (unsubscribe i c) ≡ some (unsubscribe i c)
  unfolding dispatch dispatch_key deliver unsubscribe
  dispatch_unsubscribed i resp c key = rw (key, dispatch, channel_dropped i c.pending, deliver)

  pub dispatch_full :
      (i : ℤ) (resp waiting : RpcResponse) (c : Conn)
      → key_of to_int64 resp.id ≡ some i
      → channel i c.pending ≡ some (some waiting)
      → dispatch to_int64 resp c ≡ none
  unfolding dispatch dispatch_key deliver
  dispatch_full i resp waiting c key full = rw (key, dispatch, full, deliver)

  -- A second response to a request that has not taken the first out of its channel makes the send
  -- block: the read loop stops until the request receives.
  dispatch_twice_blocks :
      (i : ℤ) (first second : RpcResponse) (c c' : Conn)
      → key_of to_int64 first.id ≡ some i
      → key_of to_int64 second.id ≡ some i
      → dispatch to_int64 first (subscribe i c) ≡ some c'
      → dispatch to_int64 second c' ≡ none
  unfolding subscribe
  dispatch_twice_blocks i first second c c' key key' sent =
      let (d, delivered, got) =
        dispatch_delivers i i first (subscribe i c) key (channel_put i none c.pending) in
      dispatch_full i second first c' key' (
        subst (λ x. channel i x.pending ≡ some (some first))
          (some-injective d c' (sym delivered ∙ sent)) (got ∙ rw (int_eq_refl i)))
