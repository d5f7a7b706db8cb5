-- ===== src/Mcp/Client/Leaks.antt =====
-- Which transports `Connect` leaves open.
use mathlib.Core.Path.{subst}
use mcp_plugin.Base.Tests.{
  ℕ, ◌≡◌, refl, ap, ◌∙◌, ◌⊎◌, inl, inr, none, some, List, ◌∷◌, Result, ok, err, Bool-cases,
  Option-cases,
}
use mcp_plugin.Base.Text.{Text}
use mcp_plugin.Base.Dict.{Dict}
use mcp_plugin.Config.Expand.{ServerConfig}
use mcp_plugin.Mcp.Client.Transport.{
  Transport, streamable, sse, RpcRequest, RpcReply, Wire, Client, next_id,
}
use mcp_plugin.Mcp.Client.Connect.{
  is_transient_http_err, Tried, send_initialize, finish_initialize, close_failed, shake,
  try_streamable, sse_opened, connect_sse, second_tried, first_tried, connect,
}

-- What a failed connection leaves on top of `ts`: nothing, or the context of an SSE connection.
abbrev pub Failed : {W : Type 0} → (W → List Transport) → List Transport → W → Type 0
Failed live ts w = (live w ≡ ts) ⊎ ((n : ℕ) × (live w ≡ sse n ∷ ts))

-- The transports whose contexts have not been cancelled, the newest first: opening adds one, and
-- where it fails, it may add one or not; closing the newest takes it away; a round trip and a
-- notification leave them as they are.
pub record Tracks {W : Type 0} (wire : Wire W) (live : W → List Transport) : Type 0 where
  pub opens_streamable :
      (cfg : ServerConfig) (w : W)
      → live (wire.open_streamable cfg w).1 ≡ streamable (wire.open_streamable cfg w).0 ∷ live w
  pub opens_sse :
      (cfg : ServerConfig) (w : W) (n : ℕ)
      → (wire.open_sse cfg w).0 ≡ ok n
      → live (wire.open_sse cfg w).1 ≡ sse n ∷ live w
  pub fails_sse :
      (cfg : ServerConfig) (w : W) (e : Text)
      → (wire.open_sse cfg w).0 ≡ err e
      → Failed live (live w) (wire.open_sse cfg w).1
  pub trips :
      (tp : Transport) (req : RpcRequest) (t : ℕ) (h : Dict Text) (w : W)
      → live (wire.round_trip tp req t h w).1 ≡ live w
  pub notifies : (tp : Transport) (req : RpcRequest) (w : W) → live (wire.notify tp req w) ≡ live w
  pub closes :
      (tp : Transport) (ts : List Transport) (w : W)
      → live w ≡ tp ∷ ts
      → live (wire.close tp w) ≡ ts

-- What an attempt that started with `ts` open leaves: the client's own transport on top of them, or
-- where it failed, nothing more than them.
pub Settled : {W : Type 0} → (W → List Transport) → List Transport → Tried W → Type 0
Settled live ts (none, c, w) = (tp : Transport) × (c.tp ≡ some tp) × (live w ≡ tp ∷ ts)
Settled live ts (some e, c, w) = live w ≡ ts

-- The same, where the attempt may end with an SSE connection.
pub Ended : {W : Type 0} → (W → List Transport) → List Transport → Tried W → Type 0
Ended live ts (none, c, w) = (tp : Transport) × (c.tp ≡ some tp) × (live w ≡ tp ∷ ts)
Ended live ts (some e, c, w) = Failed live ts w

module _ {W : Type 0} (wire : Wire W) (live : W → List Transport) (tracks : Tracks wire live) where
  finished :
      (tp : Transport) (ts : List Transport) (resp : RpcReply) (c : Client) (w : W)
      → live w ≡ tp ∷ ts
      → Settled live ts (close_failed wire tp (finish_initialize wire tp resp c w))
  unfolding Settled close_failed finish_initialize
  finished tp ts resp c w h = elim (Option-cases resp.failed) [
    | inl fine ↦ rw fine (tp, refl, tracks.notifies tp _ w ∙ h)
    | inr (e, failed) ↦ rw failed (tracks.closes tp ts w h)
  ]

  shaken :
      (tp : Transport) (ts : List Transport) (prefixed : Text → Text) (r : Result RpcReply)
      (c : Client) (w : W)
      → live w ≡ tp ∷ ts
      → Settled live ts (shake wire tp prefixed (r, w) c)
  unfolding Settled shake
  shaken tp ts prefixed (err e) c w h = tracks.closes tp ts w h
  shaken tp ts prefixed (ok resp) c w h = finished tp ts resp c w h

  try_streamable-Settled : (c : Client) (w : W) → Settled live (live w) (try_streamable wire c w)
  unfolding try_streamable send_initialize
  try_streamable-Settled c w =
      shaken (streamable (wire.open_streamable c.cfg w).0) (live w) (λ e. e) _ (next_id c) _
        (tracks.trips _ _ 15 _ _ ∙ tracks.opens_streamable c.cfg w)

  settled-Ended : (ts : List Transport) (t : Tried W) → Settled live ts t → Ended live ts t
  unfolding Settled Ended
  settled-Ended ts (none, c, w) s = s
  settled-Ended ts (some e, c, w) s = inl s

  opened :
      (r : Result ℕ) (ts : List Transport) (c : Client) (w : W)
      → ((n : ℕ) → r ≡ ok n → live w ≡ sse n ∷ ts)
      → ((e : Text) → r ≡ err e → Failed live ts w)
      → Ended live ts (sse_opened wire r c w)
  unfolding Ended sse_opened send_initialize
  opened (ok n) ts c w up down =
      settled-Ended ts _ (shaken (sse n) ts _ _ (next_id c) _ (tracks.trips _ _ 15 _ w ∙ up n refl))
  opened (err e) ts c w up down = down e refl

  connect_sse-Ended :
      (ts : List Transport) (c : Client) (w : W)
      → live w ≡ ts
      → Ended live ts (connect_sse wire c w)
  unfolding connect_sse
  connect_sse-Ended ts c w h =
      opened (wire.open_sse c.cfg w).0 ts c (wire.open_sse c.cfg w).1
        (λ n up. tracks.opens_sse c.cfg w n up ∙ ap (λ x. sse n ∷ x) h)
        (λ e down.
          subst (λ x. Failed live x (wire.open_sse c.cfg w).1) h (tracks.fails_sse c.cfg w e down))

  second-Ended :
      (ts : List Transport) (t : Tried W) → Settled live ts t → Ended live ts (second_tried wire t)
  unfolding Settled Ended second_tried
  second-Ended ts (none, c, w) s = s
  second-Ended ts (some e, c, w) s = connect_sse-Ended ts c w s

  again-Settled :
      (ts : List Transport) (c : Client) (w : W)
      → live w ≡ ts
      → Settled live ts (try_streamable wire c w)
  again-Settled ts c w h =
      subst (λ x. Settled live x (try_streamable wire c w)) h (try_streamable-Settled c w)

  first-Ended :
      (ts : List Transport) (t : Tried W) → Settled live ts t → Ended live ts (first_tried wire t)
  unfolding Settled Ended first_tried
  first-Ended ts (none, c, w) s = s
  first-Ended ts (some e, c, w) s = elim (Bool-cases (is_transient_http_err e)) [
    | inl transient ↦
        rw transient (second-Ended ts (try_streamable wire c w) (again-Settled ts c w s))
    | inr lasting ↦ rw lasting (connect_sse-Ended ts c w s)
  ]

  -- Whatever its attempts, `Connect` leaves one transport on top of those before where it succeeds,
  -- the client's; where it fails it leaves those before, and at most the context of the SSE
  -- connection besides.
  pub connect-Ended : (c : Client) (w : W) → Ended live (live w) (connect wire c w)
  unfolding connect
  connect-Ended c w = first-Ended (live w) (try_streamable wire c w) (try_streamable-Settled c w)
