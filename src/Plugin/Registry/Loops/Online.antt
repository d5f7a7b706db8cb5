-- ===== src/Plugin/Registry/Loops/Online.antt =====
-- What `reconnectOfflineLoop` achieves.
use mathlib.Core.Path.{subst}
use mcp_plugin.Base.Tests.{
  ℕ, zero, suc, ◌≤◌, ◌-◌, ◌≡◌, ◌≢◌, refl, inr, Option, none, some, List, [], ◌∷◌, arith, Result, ok,
  err, All, All-append, All-map,
}
use mcp_plugin.Base.Text.{Text}
use mcp_plugin.Base.Dict.{lookup}
use mcp_plugin.Config.Expand.{ServerConfig}
use mcp_plugin.Mcp.Types.Tools.{Tool}
use mcp_plugin.Plugin.Types.{Entry, Registry}
use mcp_plugin.Plugin.Upstream.{Host}
use mcp_plugin.Plugin.Registry.Backoff.{next_offline_backoff}
use mcp_plugin.Plugin.Registry.Fetch.{refresh_cache}
use mcp_plugin.Plugin.Registry.Build.Consistent.{IsConsistent}
use mcp_plugin.Plugin.Registry.Live.{
  strip_offline, reconnected, reconnect, relist, relisted, offline_tried, offline_round,
}
use mcp_plugin.Plugin.Registry.Loops.Pending.{
  IsNoWorse, IsPending, put_back, came_back, next_round, none_pending,
}
use mcp_plugin.Plugin.Registry.Loops.{
  OfflineEnd, all_online, reconnect_from, reconnect_offline_loop,
}

-- Servers that come up: each is `due` after a number of waits, that every wait makes smaller and
-- nothing else makes greater, and a server that is due accepts a connection. The context is never
-- done, and what runs during a wait leaves no entry without its client.
pub record ComesOnline {W : Type 0} (host : Host W)
    (pause : ℕ → Registry → W → Option (Registry × W)) : Type 0 where
  pub due : ServerConfig → W → ℕ
  pub answers :
      (cfg : ServerConfig) (w : W)
      → due cfg w ≡ 0
      → (n : ℕ) × ((host.upstream.connect cfg w).0 ≡ ok n)
  pub waits :
      (seconds : ℕ) (r : Registry) (w : W)
      → (after : Registry × W) × (pause seconds r w ≡ some after)
        × IsNoWorse r after.0
        × ((cfg : ServerConfig) → due cfg after.1 ≤ due cfg w - 1)
  pub connects : (cfg c : ServerConfig) (w : W) → due cfg (host.upstream.connect c w).1 ≤ due cfg w
  pub lists :
      (cfg : ServerConfig) (n : ℕ) (w : W) → due cfg (host.upstream.list_tools n w).1 ≤ due cfg w
  pub saves :
      (cfg : ServerConfig) (dir server : Text) (tools : List Tool) (w : W)
      → due cfg (refresh_cache host dir server tools w) ≤ due cfg w

module _ {W : Type 0} (host : Host W) (pause : ℕ → Registry → W → Option (Registry × W))
    (up : ComesOnline host pause) (dir : Text) where
  -- Every one of the servers accepts a connection after at most `n` waits.
  abbrev pub IsDueWithin : ℕ → W → List ServerConfig → Type 0
  IsDueWithin n w = All (λ cfg. up.due cfg w ≤ n)

  -- What is known before each server of a round.
  record IsOnTime (n : ℕ) (still pending : List ServerConfig) (r : Registry) (w : W) : Type 0 where
    known : IsPending r still pending
    still_due : IsDueWithin n w still
    pending_due : IsDueWithin n w pending

  relisted-due :
      (cfg c : ServerConfig) (r : Result (List Tool)) (d : Text) (w : W)
      → up.due cfg (relisted host d c r w) ≤ up.due cfg w
  unfolding relisted
  relisted-due cfg c (err e) d w = omega arith
  relisted-due cfg c (ok tools) d w = up.saves cfg d c.server tools w

  relist-due :
      (cfg c : ServerConfig) (n : ℕ) (d : Text) (w : W)
      → up.due cfg (relist host d c n w) ≤ up.due cfg w
  unfolding relist
  relist-due cfg c n [] w = omega arith
  relist-due cfg c n (x ∷ d) w = omega (
    arith,
    up.lists cfg n w,
    relisted-due cfg c (host.upstream.list_tools n w).0 (x ∷ d) (host.upstream.list_tools n w).1,
  )

  tried-IsOnTime :
      (n : ℕ) (cfg : ServerConfig) (still pending : List ServerConfig) (c : Result ℕ) (r : Registry)
      (w : W)
      → IsOnTime n still (cfg ∷ pending) r w
      → let (still', r', w') = offline_tried host dir cfg (reconnected host cfg c w r) still in
        IsOnTime n still' pending r' w'
  unfolding offline_tried reconnected strip_offline
  tried-IsOnTime n cfg still pending (err e) r w t = record {
    known = put_back r still pending cfg t.known;
    still_due = All-append _ still (cfg ∷ []) t.still_due (t.pending_due.0, tt);
    pending_due = t.pending_due.1;
  }
  tried-IsOnTime n cfg still pending (ok client) r w t = record {
    known = came_back r still pending cfg client t.known;
    still_due =
        All-map _ _ (λ c h. omega (arith, relist-due c cfg client dir w, h)) still t.still_due;
    pending_due =
        All-map _ _ (λ c h. omega (arith, relist-due c cfg client dir w, h)) pending
          t.pending_due.1;
  }

  round-IsOnTime :
      (n : ℕ) (pending still : List ServerConfig) (r : Registry) (w : W)
      → IsOnTime n still pending r w
      → let (still', r', w') = offline_round host dir pending (still, r, w) in
        IsOnTime n still' [] r' w'
  unfolding offline_round reconnect
  round-IsOnTime n [] still r w t = t
  round-IsOnTime n (cfg ∷ pending) still r w t =
      let (c, w1) = host.upstream.connect cfg w in
      let sooner : (x : ServerConfig)
          → up.due x w ≤ n
          → up.due x (host.upstream.connect cfg w).1 ≤ n =
        λ x h. omega (arith, up.connects x cfg w, h) in
      let (still', r', w') = offline_tried host dir cfg (reconnected host cfg c w1 r) still in
      round-IsOnTime n pending still' r' w' (
        tried-IsOnTime n cfg still pending c r w1 (record {
          known = t.known;
          still_due = All-map _ _ sooner still t.still_due;
          pending_due = All-map _ _ sooner (cfg ∷ pending) t.pending_due;
        }))

  -- Where every pending server is due, a round leaves none.
  round_clears :
      (pending : List ServerConfig) (r : Registry) (w : W)
      → IsDueWithin 0 w pending
      → (offline_round host dir pending ([], r, w)).0 ≡ []
  unfolding offline_round reconnect reconnected offline_tried
  round_clears [] r w ps = refl
  round_clears (cfg ∷ pending) r w (p, ps) =
      let (n, is) = up.answers cfg w (omega (arith, p)) in
      rw (is, offline_round)
        (round_clears pending _ _ (
          All-map _ _
            (λ c h. omega (
              arith,
              relist-due c cfg n dir (host.upstream.connect cfg w).1,
              up.connects c cfg w,
              h,
            ))
            pending ps))

  -- The loop ends with no server pending, and no entry is without a client.
  abbrev pub IsAllOnline : Option (OfflineEnd × Registry × W) → Type 0
  IsAllOnline o =
      (r : Registry) × (w : W) × (o ≡ some (all_online, r, w))
      × ((k : Text) (e : Entry) → lookup k r.actions ≡ some e → e.client ≢ none)

  reconnect_from-IsAllOnline :
      (n backoff : ℕ) (pending : List ServerConfig) (r : Registry) (w : W)
      → IsOnTime n [] pending r w
      → (n ≡ 0 → pending ≡ [])
      → IsAllOnline (reconnect_from host dir pause n backoff pending r w)
  unfolding reconnect_from
  reconnect_from-IsAllOnline n backoff [] r w t enough = (r, w, refl, none_pending r t.known)
  reconnect_from-IsAllOnline zero backoff (cfg ∷ cfgs) r w t enough = absurd (cc (enough refl))
  reconnect_from-IsAllOnline (suc n) backoff (cfg ∷ cfgs) r w t enough =
      let ((r1, w1), paused, no_worse, sooner) = up.waits backoff r w in
      let ready : IsOnTime n [] (cfg ∷ cfgs) r1 w1 = record {
        known = λ k e found dead. t.known k e (no_worse k e found dead) dead;
        still_due = tt;
        pending_due = All-map _ _ (λ c h. omega (arith, sooner c, h)) (cfg ∷ cfgs) t.pending_due;
      } in
      let (still, r2, w2) = offline_round host dir (cfg ∷ cfgs) ([], r1, w1) in
      let done = round-IsOnTime n (cfg ∷ cfgs) [] r1 w1 ready in
      rw (paused, reconnect_from)
        (reconnect_from-IsAllOnline n (next_offline_backoff backoff) still r2 w2
          (record {
            known = next_round still r2 done.known;
            still_due = tt;
            pending_due = done.still_due;
          })
          (λ last.
            round_clears (cfg ∷ cfgs) r1 w1
              (subst (λ k. IsDueWithin k w1 (cfg ∷ cfgs)) last ready.pending_due)))

  -- `reconnectOfflineLoop` ends, after at most as many rounds as the servers that it was started for
  -- take to come up; whatever `Execute` changes meanwhile, each entry of the registry then has a
  -- client.
  pub reconnect_offline_loop-IsAllOnline :
      (n : ℕ) (r : Registry) (w : W)
      → IsConsistent r
      → IsDueWithin (suc n) w r.offline_servers
      → IsAllOnline (reconnect_offline_loop host dir pause (suc n) r w)
  unfolding reconnect_offline_loop
  reconnect_offline_loop-IsAllOnline n r w consistent ds =
      reconnect_from-IsAllOnline (suc n) 5 r.offline_servers r w
        (record {
          known = λ k e found dead. inr (consistent.offline k e found dead);
          still_due = tt;
          pending_due = ds;
        })
        (λ e. absurd (omega (arith, e)))
