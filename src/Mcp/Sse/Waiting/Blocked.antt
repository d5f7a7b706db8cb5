-- ===== src/Mcp/Sse/Waiting/Blocked.antt =====
-- When a waiting call can return, and when the read loop never goes on.
use mathlib.Core.Path.{subst}
use mcp_plugin.Base.Tests.{
  ℕ, ◌≡◌, ◌≢◌, refl, sym, ap, ◌∙◌, inl, inr, false, Option, none, some, arith, nat_eq, is_some,
  Result, ok, err, Bool-cases, Option-cases,
}
use mcp_plugin.Base.Text.{Text}
use mcp_plugin.Base.Int.{ℤ, pos}
use mcp_plugin.Mcp.Sse.Conn.{Conn, RpcResponse, channel, key_of, dispatch}
use mcp_plugin.Mcp.Sse.Conn.Laws.{int_eq_refl, dispatch_delivers, dispatch_full}
use mcp_plugin.Mcp.Sse.Waiting.{
  Phase, idle, posting, waiting, returned, reading, blocked, Stream, new_stream, at, begin, await,
  freed, finish, receive, shut, Step, begun, refused, accepted, received, timed_out, cut_off,
  arrived, stalled, drained, shut_down, Reach, here, next,
}
use mcp_plugin.Mcp.Sse.Waiting.Delivery.{runs, IsSound, Reach-IsSound}

-- The read loop is blocked in a send to a call that has returned.
pub record IsWedged (n : ℕ) (r : Result RpcResponse) (s : Stream) : Type 0 where
  pub reader : s.reader ≡ blocked n
  pub gone : s.phase n ≡ returned r

module _ (n : ℕ) (r : Result RpcResponse) where
  other_call :
      (m : ℕ) (p : Phase) (s : Stream)
      → IsWedged n r s
      → s.phase m ≡ p
      → p ≢ returned r
      → nat_eq m n ≡ false
  other_call m p s w at_m ne = elim (Bool-cases (nat_eq m n)) [
    | inl same ↦ absurd (ne (sym at_m ∙ ap s.phase (ground arith) ∙ w.gone))
    | inr other ↦ other
  ]

  stays :
      (m : ℕ) (p : Phase) (s : Stream)
      → nat_eq m n ≡ false
      → IsWedged n r s
      → at m p s.phase n ≡ returned r
  stays m p s other w = rw other w.gone

  Step-IsWedged :
      {to_int64 : ℕ → ℤ} {s t : Stream} → Step to_int64 s t → IsWedged n r s → IsWedged n r t
  unfolding begin await finish receive freed shut
  Step-IsWedged {s = s} (begun m p e) w =
      subst (IsWedged n r) (sym e) (record {
        reader = w.reader;
        gone = stays m posting s (other_call m idle s w p (λ q. cc)) w;
      })
  Step-IsWedged {s = s} (refused m message p e) w =
      subst (IsWedged n r) (sym e)
        (record { reader = w.reader; gone = stays m _ s (other_call m posting s w p (λ q. cc)) w })
  Step-IsWedged {s = s} (accepted m p e) w =
      subst (IsWedged n r) (sym e)
        (record { reader = w.reader; gone = stays m _ s (other_call m posting s w p (λ q. cc)) w })
  Step-IsWedged {s = s} (received m resp p ch e) w =
      let other = other_call m waiting s w p (λ q. cc) in
      subst (IsWedged n r) (sym e)
        (record { reader = ap (freed m) w.reader ∙ rw other refl; gone = stays m _ s other w })
  Step-IsWedged {s = s} (timed_out m message p e) w =
      subst (IsWedged n r) (sym e)
        (record { reader = w.reader; gone = stays m _ s (other_call m waiting s w p (λ q. cc)) w })
  Step-IsWedged {s = s} (cut_off m message p c e) w =
      subst (IsWedged n r) (sym e)
        (record { reader = w.reader; gone = stays m _ s (other_call m waiting s w p (λ q. cc)) w })
  Step-IsWedged (arrived resp conn free sent e) w = absurd (cc (free, w.reader))
  Step-IsWedged (stalled resp m free key full e) w = absurd (cc (free, w.reader))
  Step-IsWedged (drained free e) w = absurd (cc (free, w.reader))
  Step-IsWedged (shut_down e) w =
      subst (IsWedged n r) (sym e) (record { reader = w.reader; gone = w.gone })

  Reach-IsWedged :
      {to_int64 : ℕ → ℤ} {s t : Stream} → IsWedged n r s → Reach to_int64 s t → IsWedged n r t
  Reach-IsWedged w here = w
  Reach-IsWedged w (next steps st) = Step-IsWedged st (Reach-IsWedged w steps)

module _ (to_int64 : ℕ → ℤ) where
  open_channel :
      (n : ℕ) (s : Stream)
      → IsSound to_int64 s
      → s.phase n ≡ waiting
      → (ch : Option RpcResponse) × (channel (pos n) s.conn.pending ≡ some ch)
  open_channel n s i p = elim (Option-cases (channel (pos n) s.conn.pending)) [
    | inl missing ↦ absurd (cc (i.registered n, ap runs p, ap is_some missing))
    | inr found ↦ found
  ]

  receive_now :
      (n : ℕ) (resp : RpcResponse) (s : Stream) → (receive n resp s).phase n ≡ returned (ok resp)
  unfolding receive finish
  receive_now n resp s = ground arith

  receive_after :
      (n : ℕ) (resp : RpcResponse) (ch : Option RpcResponse) (s : Stream)
      → s.phase n ≡ waiting
      → s.reader ≡ reading
      → key_of to_int64 resp.id ≡ some (pos n)
      → channel (pos n) s.conn.pending ≡ some ch
      → (t : Stream) × (answer : RpcResponse) × Reach to_int64 s t
        × (t.phase n ≡ returned (ok answer))
  receive_after n resp (some held) s p free key found =
      (receive n held s, held, next here (received n held p found refl), receive_now n held s)
  receive_after n resp none s p free key found =
      let (conn, sent, got) = dispatch_delivers to_int64 (pos n) (pos n) resp s.conn key found in
      let t : Stream = record s { conn = conn } in
      (
        receive n resp t,
        resp,
        next (next here (arrived resp conn free sent refl))
            (received n resp p (got ∙ rw (int_eq_refl (pos n)) refl) refl),
        receive_now n resp t,
      )

  Reach-trans : {s t u : Stream} → Reach to_int64 s t → Reach to_int64 t u → Reach to_int64 s u
  Reach-trans first here = first
  Reach-trans first (next steps st) = next (Reach-trans first steps) st

  -- While the read loop reads, a waiting call whose response arrives can return: nothing that happened
  -- before is in the way. It returns a response with its own id.
  pub waiting_call_returns :
      {s : Stream} (steps : Reach to_int64 new_stream s) (n : ℕ) (resp : RpcResponse)
      → s.phase n ≡ waiting
      → s.reader ≡ reading
      → key_of to_int64 resp.id ≡ some (pos n)
      → (t : Stream) × (answer : RpcResponse) × Reach to_int64 s t
        × (t.phase n ≡ returned (ok answer))
        × (key_of to_int64 answer.id ≡ some (pos n))
  waiting_call_returns {s} steps n resp p free key =
      let sound : IsSound to_int64 s = Reach-IsSound to_int64 steps in
      let (ch, found) = open_channel n s sound p in
      let (t, answer, more, done) = receive_after n resp ch s p free key found in
      (t, answer, more, done, (Reach-IsSound to_int64 (Reach-trans steps more)).own n answer done)

  at_self : (n : ℕ) (p : Phase) (phase : ℕ → Phase) → at n p phase n ≡ p
  at_self n p phase = ground arith

  finished-IsWedged :
      (n : ℕ) (message : Text) (s : Stream)
      → s.reader ≡ blocked n
      → IsWedged n (err message) (finish n (err message) s)
  unfolding finish
  finished-IsWedged n message s stuck = record { reader = stuck; gone = at_self n _ s.phase }

  -- Let a call wait with an empty channel while the read loop reads. If the server then answers it
  -- twice before the call receives, the first answer fills the channel, and the read loop blocks in
  -- its send of the second; and if the call times out before it receives, the read loop is blocked
  -- for good: whatever happens afterwards, the connection reads nothing any more.
  pub double_answer_wedges :
      (n : ℕ) (first second : RpcResponse) (message : Text) (s : Stream)
      → s.phase n ≡ waiting
      → s.reader ≡ reading
      → channel (pos n) s.conn.pending ≡ some none
      → key_of to_int64 first.id ≡ some (pos n)
      → key_of to_int64 second.id ≡ some (pos n)
      → (filled : Conn) × (dispatch to_int64 first s.conn ≡ some filled)
        × (dispatch to_int64 second filled ≡ none)
        × Reach to_int64 s (finish n (err message) (record s { conn = filled; reader = blocked n }))
        × ((t : Stream)
            → Reach to_int64
                (finish n (err message) (record s { conn = filled; reader = blocked n }))
                t
            → t.reader ≡ blocked n)
  double_answer_wedges n first second message s p free empty key key' =
      let (filled, sent, got) = dispatch_delivers to_int64 (pos n) (pos n) first s.conn key empty in
      let full : dispatch to_int64 second filled ≡ none =
        dispatch_full to_int64 (pos n) second first filled key'
          (got ∙ rw (int_eq_refl (pos n)) refl) in
      let stuck : Stream = record s { conn = filled; reader = blocked n } in
      (
        filled,
        sent,
        full,
        next
            (next (next here (arrived first filled free sent refl))
              (stalled second n free key' full refl))
            (timed_out n message p refl),
        λ t more.
            (Reach-IsWedged n (err message) (finished-IsWedged n message stuck refl) more).reader,
      )
