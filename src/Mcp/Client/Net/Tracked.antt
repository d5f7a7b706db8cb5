-- ===== src/Mcp/Client/Net/Tracked.antt =====
-- The transports keep the promises that the client's connecting relies on.
use mcp_plugin.Base.Tests.{
  ℕ, ◌<◌, ◌≡◌, refl, sym, ap, inl, inr, some, List, [], ◌∷◌, arith, nat_eq, length, if◌then◌else◌,
  ok, err, Bool-cases, Option-cases,
}
use mcp_plugin.Base.Text.{Text}
use mcp_plugin.Base.Arena.{fetch, store}
use mcp_plugin.Base.Dict.{Dict}
use mcp_plugin.Json.Decode.{Scanner}
use mcp_plugin.Config.Expand.{ServerConfig}
use mcp_plugin.Mcp.Streamable.{Http}
use mcp_plugin.Mcp.Sse.Post.{Streams, Opening, not_read, stream_ended, posts_to}
use mcp_plugin.Mcp.Client.Transport.{Transport, streamable, sse, RpcRequest, Client}
use mcp_plugin.Mcp.Client.Leaks.{Tracks, Failed}
use mcp_plugin.Mcp.Client.Net.{
  Protocol, posts, streams, Link, Net, cancel, number, open_streamable, sse_link, sse_connected,
  open_sse, trip_posted, trip_on, round_trip, note_posted, note_on, notify, close, wire,
}

abbrev pub transport_of : Protocol → ℕ → Transport
transport_of (posts s) n = streamable n
transport_of (streams s) n = sse n

-- The transports whose contexts have not been cancelled, the newest first. One whose stream has ended
-- since stays until it is closed.
unfoldable pub live_links : List Link → List Transport
live_links [] = []
live_links (l ∷ ls) =
    let older = live_links ls in
    if l.is_open then transport_of l.protocol (length ls) ∷ older else older

abbrev pub live : {W : Type 0} → Net W → List Transport
live w = live_links w.links

number_of_transport : (p : Protocol) (n : ℕ) → number (transport_of p n) ≡ n
number_of_transport (posts s) n = refl
number_of_transport (streams s) n = refl

-- The newest open transport is one of the links.
number_below :
    (ls : List Link) (tp : Transport) (ts : List Transport)
    → live_links ls ≡ tp ∷ ts
    → number tp < length ls
unfolding live_links
number_below [] tp ts h = absurd (cc h)
number_below (l ∷ ls) tp ts h = elim (Bool-cases l.is_open) [
  | inl up ↦ ground (arith, number_of_transport l.protocol (length ls))
  | inr down ↦ ground (arith, number_below ls tp ts)
]

live-cancel :
    (ls : List Link) (tp : Transport) (ts : List Transport)
    → live_links ls ≡ tp ∷ ts
    → live_links (cancel (number tp) ls) ≡ ts
unfolding live_links cancel
live-cancel [] tp ts h = absurd (cc h)
live-cancel (l ∷ ls) tp ts h = elim (Bool-cases l.is_open) [
  | inl up ↦ ground (arith, number_of_transport l.protocol (length ls))
  | inr down ↦ ground (arith, number_below ls tp ts, live-cancel ls tp ts)
]

-- Writing back a link that is as open as before, and of the same kind.
live-store :
    (n : ℕ) (ls : List Link) (l new : Link)
    → fetch n ls ≡ some l
    → new.is_open ≡ l.is_open
    → ((k : ℕ) → transport_of new.protocol k ≡ transport_of l.protocol k)
    → (live_links (store n new ls) ≡ live_links ls) × (length (store n new ls) ≡ length ls)
unfolding live_links store fetch
live-store n [] l new found same kind = (refl, refl)
live-store n (k ∷ ls) l new found same kind = elim (Bool-cases (nat_eq n (length ls))) [
  | inl here ↦ ground (arith, kind (length ls))
  | inr older ↦ ground (arith, live-store n ls l new)
]

module _ {W : Type 0} (http : Http W) (outside : Streams W) (shape : Scanner) where
  live-sse_connected :
      (cfg : ServerConfig) (o : Opening) (rest : W) (links : List Link)
      → ((n : ℕ)
          → (sse_connected http outside shape cfg o rest links).0 ≡ ok n
          → live (sse_connected http outside shape cfg o rest links).1 ≡ sse n ∷ live_links links)
        × ((e : Text)
            → (sse_connected http outside shape cfg o rest links).0 ≡ err e
            → Failed live (live_links links) (sse_connected http outside shape cfg o rest links).1)
  unfolding sse_connected sse_link live_links
  live-sse_connected cfg (posts_to endpoint) rest links =
      (λ n h. ground arith, λ e h. absurd (cc h))
  live-sse_connected cfg (not_read message) rest links =
      (λ n h. absurd (cc h), λ e h. inr (length links, refl))
  live-sse_connected cfg (stream_ended message) rest links = (λ n h. absurd (cc h), λ e h. inl refl)

  live-trip_on :
      (client : Http W) (n : ℕ) (l : Link) (p : Protocol) (req : RpcRequest) (seconds : ℕ)
      (extra : Dict Text) (w : Net W)
      → fetch n w.links ≡ some l
      → l.protocol ≡ p
      → live (trip_on http outside shape client n l p req seconds extra w).1 ≡ live w
  unfolding trip_on trip_posted
  live-trip_on client n l (posts s) req seconds extra w found kind =
      (live-store n w.links l _ found refl (λ k. ap (λ q. transport_of q k) (sym kind))).0
  live-trip_on client n l (streams s) req seconds extra w found kind = refl

  live-round_trip :
      (tp : Transport) (req : RpcRequest) (seconds : ℕ) (extra : Dict Text) (w : Net W)
      → live (round_trip http outside shape tp req seconds extra w).1 ≡ live w
  unfolding round_trip
  live-round_trip tp req seconds extra w = elim (Option-cases (fetch (number tp) w.links)) [
    | inl missing ↦ rw (missing, round_trip) refl
    | inr (l, found) ↦
        rw (found, round_trip)
          (live-trip_on _ (number tp) l l.protocol req seconds extra w found refl)
  ]

  live-note_on :
      (client : Http W) (n : ℕ) (l : Link) (p : Protocol) (req : RpcRequest) (w : Net W)
      → fetch n w.links ≡ some l
      → l.protocol ≡ p
      → live (note_on http outside shape client n l p req w) ≡ live w
  unfolding note_on note_posted
  live-note_on client n l (posts s) req w found kind =
      (live-store n w.links l _ found refl (λ k. ap (λ q. transport_of q k) (sym kind))).0
  live-note_on client n l (streams s) req w found kind = refl

  live-notify :
      (tp : Transport) (req : RpcRequest) (w : Net W)
      → live (notify http outside shape tp req w) ≡ live w
  unfolding notify
  live-notify tp req w = elim (Option-cases (fetch (number tp) w.links)) [
    | inl missing ↦ rw (missing, notify) refl
    | inr (l, found) ↦ rw (found, notify) (live-note_on _ (number tp) l l.protocol req w found refl)
  ]

  pub wire-Tracks : Tracks (wire http outside shape) live
  unfolding open_streamable open_sse close live_links
  wire-Tracks = record {
    opens_streamable = λ cfg w. refl;
    opens_sse = λ cfg w n h. (live-sse_connected cfg _ _ w.links).0 n h;
    fails_sse = λ cfg w e h. (live-sse_connected cfg _ _ w.links).1 e h;
    trips = live-round_trip;
    notifies = live-notify;
    closes = λ tp ts w h. live-cancel w.links tp ts h;
  }
