-- ===== src/Mcp/Client/Ready.antt =====
-- A client that has connected has a transport.
use mcp_plugin.Base.Tests.{
  ℕ, ◌≡◌, refl, inl, inr, none, some, Result, ok, err, Bool-cases, Option-cases,
}
use mcp_plugin.Base.Text.{Text}
use mcp_plugin.Mcp.Client.Transport.{Transport, streamable, sse, RpcReply, Wire, Client, next_id}
use mcp_plugin.Mcp.Client.Connect.{
  is_transient_http_err, Tried, finish_initialize, close_failed, shake, try_streamable, sse_opened,
  connect_sse, second_tried, first_tried, connect, fallback_sse,
}

abbrev pub HasTransport : Client → Type 0
HasTransport c = (tp : Transport) × (c.tp ≡ some tp)

-- An attempt that succeeds leaves a transport.
unfoldable pub Connects : {W : Type 0} → Tried W → Type 0
Connects (none, c, w) = HasTransport c
Connects (some e, c, w) = Unit

module _ {W : Type 0} (wire : Wire W) where
  finished-Connects :
      (tp : Transport) (resp : RpcReply) (c : Client) (w : W)
      → Connects (close_failed wire tp (finish_initialize wire tp resp c w))
  unfolding Connects close_failed finish_initialize
  finished-Connects tp resp c w = elim (Option-cases resp.failed) [
    | inl fine ↦ rw fine (tp, refl)
    | inr (e, failed) ↦ rw failed tt
  ]

  shake-Connects :
      (tp : Transport) (prefixed : Text → Text) (r : Result RpcReply × W) (c : Client)
      → Connects (shake wire tp prefixed r c)
  unfolding Connects shake
  shake-Connects tp prefixed (err e, w) c = tt
  shake-Connects tp prefixed (ok resp, w) c = finished-Connects tp resp c w

  try_streamable-Connects : (c : Client) (w : W) → Connects (try_streamable wire c w)
  unfolding try_streamable
  try_streamable-Connects c w =
      shake-Connects (streamable (wire.open_streamable c.cfg w).0) (λ e. e) _ (next_id c)

  opened-Connects : (r : Result ℕ) (c : Client) (w : W) → Connects (sse_opened wire r c w)
  unfolding Connects sse_opened
  opened-Connects (ok n) c w = shake-Connects (sse n) _ _ (next_id c)
  opened-Connects (err e) c w = tt

  connect_sse-Connects : (c : Client) (w : W) → Connects (connect_sse wire c w)
  unfolding connect_sse
  connect_sse-Connects c w = opened-Connects (wire.open_sse c.cfg w).0 c (wire.open_sse c.cfg w).1

  second-Connects : (t : Tried W) → Connects t → Connects (second_tried wire t)
  unfolding Connects second_tried
  second-Connects (none, c, w) has = has
  second-Connects (some e, c, w) _ = connect_sse-Connects c w

  first-Connects : (t : Tried W) → Connects t → Connects (first_tried wire t)
  unfolding Connects first_tried
  first-Connects (none, c, w) has = has
  first-Connects (some e, c, w) _ = elim (Bool-cases (is_transient_http_err e)) [
    | inl transient ↦
        rw transient (second-Connects (try_streamable wire c w) (try_streamable-Connects c w))
    | inr lasting ↦ rw lasting (connect_sse-Connects c w)
  ]

  pub connect-Connects : (c : Client) (w : W) → Connects (connect wire c w)
  unfolding connect
  connect-Connects c w = first-Connects (try_streamable wire c w) (try_streamable-Connects c w)

  pub fallback_sse-Connects : (c : Client) (w : W) → Connects (fallback_sse wire c w)
  unfolding fallback_sse
  fallback_sse-Connects c w = connect_sse-Connects _ _
