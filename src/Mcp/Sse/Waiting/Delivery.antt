-- ===== src/Mcp/Sse/Waiting/Delivery.antt =====
-- Which response a call returns, and that no call leaves its channel behind.
use mathlib.Core.Path.{subst}
use mcp_plugin.Base.Tests.{
  ℕ, ◌≡◌, refl, sym, ◌⊎◌, inl, inr, Bool, true, false, Option, none, some, arith, nat_eq,
  if◌then◌else◌, is_some, Result, ok, err,
}
use mcp_plugin.Base.Int.{ℤ, pos}
use mcp_plugin.Mcp.Sse.Conn.{
  int_eq, RpcResponse, Pending, Conn, channel, put_channel, drop_channel, subscribe, unsubscribe,
  deliver, key_of, dispatch_key, dispatch,
}
use mcp_plugin.Mcp.Sse.Conn.Laws.{int_eq_iff, channel-put_channel, channel-drop_channel}
use mcp_plugin.Mcp.Sse.Waiting.{
  Phase, posting, waiting, returned, Reader, Stream, new_stream, begin, await, freed, finish,
  receive, shut, Step, begun, refused, accepted, received, timed_out, cut_off, arrived, stalled,
  drained, shut_down, blocked, ended, Reach, here, next,
}

abbrev pub runs : Phase → Bool
runs posting = true
runs waiting = true
runs _ = false

-- The channel of call `m` after another call `n` has begun, after it has returned, and after a
-- response was put into its channel.
at_channel :
    (n m : ℕ) (ch : Option RpcResponse) (p : Pending)
    → channel (pos m) (put_channel (pos n) ch p)
      ≡ (if nat_eq n m then some ch else channel (pos m) p)
unfolding int_eq
at_channel n m ch p = channel-put_channel (pos n) (pos m) ch p

at_dropped :
    (n m : ℕ) (p : Pending)
    → channel (pos m) (drop_channel (pos n) p) ≡ (if nat_eq n m then none else channel (pos m) p)
unfolding int_eq
at_dropped n m p = channel-drop_channel (pos n) (pos m) p

module _ (to_int64 : ℕ → ℤ) where
  pub record IsSound (s : Stream) : Type 0 where
    -- what stands in a channel answers its call
    pub held :
        (n : ℕ) (resp : RpcResponse)
        → channel (pos n) s.conn.pending ≡ some (some resp)
        → key_of to_int64 resp.id ≡ some (pos n)
    -- what a call returned answers it
    pub own :
        (n : ℕ) (resp : RpcResponse)
        → s.phase n ≡ returned (ok resp)
        → key_of to_int64 resp.id ≡ some (pos n)
    -- a call has a channel exactly while it runs
    pub registered : (n : ℕ) → is_some (channel (pos n) s.conn.pending) ≡ runs (s.phase n)

  begin-IsSound : (n : ℕ) (s : Stream) → IsSound s → IsSound (begin n s)
  unfolding begin subscribe
  begin-IsSound n s i = record {
    held = λ m resp h. ground (arith, at_channel n m none s.conn.pending, i.held m resp);
    own = λ m resp h. ground (arith, i.own m resp);
    registered = λ m. ground (arith, at_channel n m none s.conn.pending, i.registered m);
  }

  await-IsSound : (n : ℕ) (s : Stream) → s.phase n ≡ posting → IsSound s → IsSound (await n s)
  unfolding await
  await-IsSound n s p i = record {
    held = i.held;
    own = λ m resp h. ground (arith, i.own m resp);
    registered = λ m. ground (arith, i.registered m);
  }

  finish-IsSound :
      (n : ℕ) (r : Result RpcResponse) (s : Stream)
      → ((resp : RpcResponse) → r ≡ ok resp → key_of to_int64 resp.id ≡ some (pos n))
      → IsSound s
      → IsSound (finish n r s)
  unfolding finish unsubscribe
  finish-IsSound n r s answers i = record {
    held = λ m resp h. ground (arith, at_dropped n m s.conn.pending, i.held m resp);
    own = λ m resp h. ground (arith, i.own m resp, answers resp);
    registered = λ m. ground (arith, at_dropped n m s.conn.pending, i.registered m);
  }

  deliver-cases :
      (i : ℤ) (resp : RpcResponse) (o : Option (Option RpcResponse)) (c c' : Conn)
      → deliver i resp o c ≡ some c'
      → (c' ≡ c)
        ⊎ ((o ≡ some none) × (c' ≡ record c { pending = put_channel i (some resp) c.pending }))
  unfolding deliver
  deliver-cases i resp none c c' h = inl (cc)
  deliver-cases i resp (some none) c c' h = inr (refl, cc)
  deliver-cases i resp (some (some w)) c c' h = absurd (cc h)

  dispatch_key-cases :
      (key : Option ℤ) (resp : RpcResponse) (c c' : Conn)
      → dispatch_key to_int64 key resp c ≡ some c'
      → (c' ≡ c)
        ⊎ ((i : ℤ) × (key ≡ some i)
            × (channel i c.pending ≡ some none)
            × (c' ≡ record c { pending = put_channel i (some resp) c.pending }))
  unfolding dispatch_key
  dispatch_key-cases none resp c c' h = inl (cc)
  dispatch_key-cases (some i) resp c c' h =
      elim (deliver-cases i resp (channel i c.pending) c c' h) [
        | inl same ↦ inl same
        | inr (open_channel, put) ↦ inr (i, refl, open_channel, put)
      ]

  put-IsSound :
      (i : ℤ) (resp : RpcResponse) (s : Stream)
      → key_of to_int64 resp.id ≡ some i
      → channel i s.conn.pending ≡ some none
      → IsSound s
      → IsSound (record s {
        conn = record (s.conn) { pending = put_channel i (some resp) s.conn.pending };
      })
  put-IsSound i resp s key waits sound = record {
    held = λ m other h. ground (
      arith,
      channel-put_channel i (pos m) (some resp) s.conn.pending,
      int_eq_iff i (pos m),
      sound.held m other,
    );
    own = sound.own;
    registered = λ m. ground (
      arith,
      channel-put_channel i (pos m) (some resp) s.conn.pending,
      int_eq_iff i (pos m),
      sound.registered m,
    );
  }

  arrive-IsSound :
      (resp : RpcResponse) (conn : Conn) (s : Stream)
      → dispatch to_int64 resp s.conn ≡ some conn
      → IsSound s
      → IsSound (record s { conn = conn })
  unfolding dispatch
  arrive-IsSound resp conn s sent sound =
      elim (dispatch_key-cases (key_of to_int64 resp.id) resp s.conn conn sent) [
        | inl same ↦ subst (λ c. IsSound (record s { conn = c })) (sym same) sound
        | inr (i, key, waits, put) ↦
            subst (λ c. IsSound (record s { conn = c })) (sym put)
              (put-IsSound i resp s key waits sound)
      ]

  -- The read loop and the closing touch neither the calls nor their channels.
  aside-IsSound :
      (r : Reader) (b : Bool) (s : Stream)
      → IsSound s
      → IsSound (record s { reader = r; closed = b })
  aside-IsSound r b s i = record { held = i.held; own = i.own; registered = i.registered }

  Step-IsSound : {s t : Stream} → Step to_int64 s t → IsSound s → IsSound t
  unfolding receive shut
  Step-IsSound {s} (begun n fresh e) i = subst IsSound (sym e) (begin-IsSound n s i)
  Step-IsSound {s} (refused n message p e) i =
      subst IsSound (sym e) (finish-IsSound n (err message) s (λ resp q. cc) i)
  Step-IsSound {s} (accepted n p e) i = subst IsSound (sym e) (await-IsSound n s p i)
  Step-IsSound {s} (received n resp p ch e) i =
      let answers : (other : RpcResponse)
          → ◌≡◌ {A = Result RpcResponse} (ok resp) (ok other)
          → key_of to_int64 other.id ≡ some (pos n) =
        λ other q. cc (i.held n resp ch) in
      subst IsSound (sym e) (
        aside-IsSound (freed n s.reader) s.closed (finish n (ok resp) s)
          (finish-IsSound n (ok resp) s answers i))
  Step-IsSound {s} (timed_out n message p e) i =
      subst IsSound (sym e) (finish-IsSound n (err message) s (λ resp q. cc) i)
  Step-IsSound {s} (cut_off n message p shut e) i =
      subst IsSound (sym e) (finish-IsSound n (err message) s (λ resp q. cc) i)
  Step-IsSound {s} (arrived resp conn r sent e) i =
      subst IsSound (sym e) (arrive-IsSound resp conn s sent i)
  Step-IsSound {s} (stalled resp n r key full e) i =
      subst IsSound (sym e) (aside-IsSound (blocked n) s.closed s i)
  Step-IsSound {s} (drained r e) i = subst IsSound (sym e) (aside-IsSound ended true s i)
  Step-IsSound {s} (shut_down e) i = subst IsSound (sym e) (aside-IsSound s.reader true s i)

  new_stream-IsSound : IsSound new_stream
  unfolding channel
  new_stream-IsSound = record {
    held = λ n resp h. cc;
    own = λ n resp h. cc;
    registered = λ n. refl;
  }

  -- However calls, responses, timeouts and the closing of the connection interleave, a call only ever
  -- returns a response with its own id, and it has a channel exactly while it runs, so that no
  -- return leaves one behind.
  pub Reach-IsSound : {s : Stream} → Reach to_int64 new_stream s → IsSound s
  Reach-IsSound here = new_stream-IsSound
  Reach-IsSound (next r st) = Step-IsSound st (Reach-IsSound r)
