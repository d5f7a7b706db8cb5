-- ===== src/Plugin/Registry/Live/Reconnect.antt =====
-- What a reconnect changes, and that it and the stripping of marks keep a registry consistent.
use mathlib.Core.Path.{subst}
use mathlib.Core.List.{Memᴰ}
use mathlib.Core.Option
use mathlib.Core.Option.{some-injective}
use mcp_plugin.Base.Tests.{
  ℕ, ◌≡◌, refl, sym, ap, ◌∙◌, inl, inr, none, some, List, [], ◌∷◌, arith, if◌then◌else◌, Result, ok,
  err, Bool-cases, Option-cases,
}
use mcp_plugin.Base.Text.{Text, ◌==◌}
use mcp_plugin.Base.Dict.{Dict, lookup, has_key}
use mcp_plugin.Config.Expand.{ServerConfig}
use mcp_plugin.Plugin.Types.{Entry, ActionMsg, Registry}
use mcp_plugin.Plugin.Upstream.{Host}
use mcp_plugin.Plugin.Registry.Meta.{action_name}
use mcp_plugin.Plugin.Registry.Build.Consistent.{IsConsistent, announces}
use mcp_plugin.Plugin.Registry.Live.{
  with_client, set_client, strip_mark, strip_marks, strip_offline, reconnected, reconnect,
  offline_tried, offline_round,
}

-- The entry that a successful reconnect of `server` leaves in the place of `e`.
abbrev pub renewed : Text → ℕ → Entry → Entry
renewed server client e = if e.cfg.server == server then record e { client = some client } else e

lookup-with_client :
    (server : Text) (client : ℕ) (k : Text) (m : Dict Entry)
    → lookup k (with_client server client m) ≡ Option.map (renewed server client) (lookup k m)
unfolding lookup with_client
lookup-with_client server client k [] = refl
lookup-with_client server client k ((j, e) ∷ m) = elim (Bool-cases (j == k)) [
  | inl here ↦ rw here
  | inr there ↦ rw there (lookup-with_client server client k m)
]

-- A connected server's client is given to every entry of the server, and to no other; an entry is
-- otherwise left as it is.
pub lookup-set_client :
    (server : Text) (client : ℕ) (k : Text) (r : Registry)
    → lookup k (set_client server client r).actions
      ≡ Option.map (renewed server client) (lookup k r.actions)
unfolding set_client
lookup-set_client server client k r = lookup-with_client server client k r.actions

has_key-set_client :
    (server : Text) (client : ℕ) (k : Text) (r : Registry)
    → has_key k (set_client server client r).actions ≡ has_key k r.actions
unfolding has_key
has_key-set_client server client k r = elim (Option-cases (lookup k r.actions)) [
  | inl missing ↦ rw (lookup-set_client server client k r, missing)
  | inr (e, found) ↦ rw (lookup-set_client server client k r, found)
]

-- An entry after the reconnect comes from one before it.
pub before :
    (server : Text) (client : ℕ) (k : Text) (r : Registry) (e : Entry)
    → lookup k (set_client server client r).actions ≡ some e
    → (old : Entry) × (lookup k r.actions ≡ some old) × (renewed server client old ≡ e)
before server client k r e h = elim (Option-cases (lookup k r.actions)) [
  | inl missing ↦ absurd (cc (lookup-set_client server client k r, missing, h))
  | inr (old, found) ↦ (
    old,
    found,
    some-injective (renewed server client old) e (
        sym (lookup-set_client server client k r ∙ ap (Option.map (renewed server client)) found)
        ∙ h),
  )
]

renewed_name :
    (server : Text) (client : ℕ) (e : Entry)
    → action_name (renewed server client e).cfg.server (renewed server client e).mcp_tool_name
      ≡ action_name e.cfg.server e.mcp_tool_name
renewed_name server client e = elim (Bool-cases (e.cfg.server == server)) [
  | inl same ↦ rw same
  | inr other ↦ rw other
]

renewed_offline :
    (server : Text) (client : ℕ) (e : Entry) (servers : List ServerConfig)
    → (e.client ≡ none → Memᴰ e.cfg servers)
    → (renewed server client e).client ≡ none
    → Memᴰ (renewed server client e).cfg servers
renewed_offline server client e servers known = elim (Bool-cases (e.cfg.server == server)) [
  | inl same ↦ rw same (λ dead. cc)
  | inr other ↦ rw other known
]

set_client-IsConsistent :
    (server : Text) (client : ℕ) (r : Registry)
    → IsConsistent r
    → IsConsistent (set_client server client r)
set_client-IsConsistent server client r c = record {
  same_actions =
      λ k. unfold set_client in c.same_actions k ∙ sym (has_key-set_client server client k r);
  named = λ k e h.
      let (old, found, is) = before server client k r e h in
      subst (λ x. k ≡ action_name x.cfg.server x.mcp_tool_name) is
        (c.named k old found ∙ sym (renewed_name server client old));
  offline = λ k e h dead.
      let (old, found, is) = before server client k r e h in
      unfold set_client in
      subst (λ x. x.client ≡ none → Memᴰ x.cfg r.offline_servers) is
        (renewed_offline server client old r.offline_servers (c.offline k old found)) dead;
}

announces-strip_marks :
    (server : Text) (as' : List ActionMsg) (k : Text)
    → announces (strip_marks server as') k ≡ announces as' k
unfolding announces strip_marks strip_mark
announces-strip_marks server [] k = refl
announces-strip_marks server (a ∷ as') k = ground (arith, announces-strip_marks server as' k)

-- Stripping the marks of a server that is back changes descriptions alone.
pub strip_offline-IsConsistent :
    (server : Text) (r : Registry) → IsConsistent r → IsConsistent (strip_offline server r)
unfolding strip_offline
strip_offline-IsConsistent server r c = record {
  same_actions = λ k. announces-strip_marks server r.caps.actions k ∙ c.same_actions k;
  named = c.named;
  offline = c.offline;
}

module _ {W : Type 0} (host : Host W) where
  -- A reconnect keeps the registry consistent, whether it succeeds or fails.
  pub reconnect-IsConsistent :
      (cfg : ServerConfig) (r : Registry) (w : W)
      → IsConsistent r
      → IsConsistent (reconnect host cfg r w).1
  unfolding reconnect
  reconnect-IsConsistent cfg r w c =
      outcome (host.upstream.connect cfg w).0 (host.upstream.connect cfg w).1
    where
      outcome : (res : Result ℕ) (w' : W) → IsConsistent (reconnected host cfg res w' r).1
      outcome (err e) w' = unfold reconnected in c
      outcome (ok client) w' = unfold reconnected in set_client-IsConsistent cfg.server client r c

  offline_tried-IsConsistent :
      (cache_dir : Text) (cfg : ServerConfig) (s : Result ℕ × Registry × W)
      (still : List ServerConfig)
      → IsConsistent s.1
      → IsConsistent (offline_tried host cache_dir cfg s still).1
  unfolding offline_tried
  offline_tried-IsConsistent cache_dir cfg (err e, r, w) still c = c
  offline_tried-IsConsistent cache_dir cfg (ok client, r, w) still c =
      strip_offline-IsConsistent cfg.server r c

  -- A round of the background reconnects keeps the registry consistent, whatever servers are pending
  -- and whichever of them come back.
  pub offline_round-IsConsistent :
      (cache_dir : Text) (pending : List ServerConfig) (s : List ServerConfig × Registry × W)
      → IsConsistent s.1
      → IsConsistent (offline_round host cache_dir pending s).1
  unfolding offline_round
  offline_round-IsConsistent cache_dir [] s c = c
  offline_round-IsConsistent cache_dir (cfg ∷ pending) s c =
      offline_round-IsConsistent cache_dir pending
        (offline_tried host cache_dir cfg (reconnect host cfg s.1 s.2) s.0)
        (offline_tried-IsConsistent cache_dir cfg (reconnect host cfg s.1 s.2) s.0
          (reconnect-IsConsistent cfg s.1 s.2 c))
