-- ===== src/Plugin/Registry/Loops/Retry.antt =====
-- When `retryLoop` ends.
use mathlib.Core.Path.{subst}
use mcp_plugin.Base.Tests.{
  ℕ, zero, suc, ◌≤◌, ◌-◌, ◌≡◌, ◌≢◌, refl, Option, some, List, [], ◌∷◌, arith, Result, ok, err, All,
  All-append, All-map,
}
use mcp_plugin.Base.Text.{Text}
use mcp_plugin.Config.Expand.{ServerConfig}
use mcp_plugin.Mcp.Types.Tools.{Tool}
use mcp_plugin.Plugin.Types.{Registry}
use mcp_plugin.Plugin.Upstream.{Host}
use mcp_plugin.Plugin.Registry.Backoff.{next_retry_backoff}
use mcp_plugin.Plugin.Registry.Fetch.{fetch_tools, refresh_cache}
use mcp_plugin.Plugin.Registry.Live.{retry_tried, retry_round}
use mcp_plugin.Plugin.Registry.Loops.{RetryEnd, exited, retry_from, retry_loop}

-- Servers that come up: each is `due` after a number of waits, that every wait makes smaller and
-- nothing else makes greater, and a server that is due answers. The context is never done.
pub record ComesUp {W : Type 0} (host : Host W) (pause : ℕ → W → Option W) : Type 0 where
  pub due : ServerConfig → W → ℕ
  pub answers :
      (cfg : ServerConfig) (w : W)
      → due cfg w ≡ 0
      → (found : List Tool × ℕ) × ((fetch_tools host.upstream cfg w).0 ≡ ok found)
  pub waits :
      (seconds : ℕ) (w : W)
      → (w' : W) × (pause seconds w ≡ some w') × ((cfg : ServerConfig) → due cfg w' ≤ due cfg w - 1)
  pub fetches :
      (cfg c : ServerConfig) (w : W) → due cfg (fetch_tools host.upstream c w).1 ≤ due cfg w
  pub saves :
      (cfg : ServerConfig) (dir server : Text) (tools : List Tool) (w : W)
      → due cfg (refresh_cache host dir server tools w) ≤ due cfg w

module _ {W : Type 0} (host : Host W) (pause : ℕ → W → Option W) (up : ComesUp host pause) where
  -- Every one of the servers answers after at most `n` waits.
  abbrev pub IsDueWithin : ℕ → W → List ServerConfig → Type 0
  IsDueWithin n w = All (λ cfg. up.due cfg w ≤ n)

  module _ (dir : Text) where
    tried-due :
        (cfg c : ServerConfig) (r : Result (List Tool × ℕ)) (still : List ServerConfig) (w : W)
        → up.due cfg (retry_tried host dir c r still w).1 ≤ up.due cfg w
    unfolding retry_tried
    tried-due cfg c (err e) still w = omega arith
    tried-due cfg c (ok (tools, n)) still w = up.saves cfg dir c.server tools w

    tried-IsDueWithin :
        (n : ℕ) (cfg : ServerConfig) (r : Result (List Tool × ℕ)) (still : List ServerConfig)
        (w : W)
        → up.due cfg w ≤ n
        → IsDueWithin n w still
        → IsDueWithin n
            (retry_tried host dir cfg r still w).1
            (retry_tried host dir cfg r still w).0
    unfolding retry_tried
    tried-IsDueWithin n cfg (err e) still w d ds = All-append _ still (cfg ∷ []) ds (d, tt)
    tried-IsDueWithin n cfg (ok (tools, m)) still w d ds =
        All-map _ _ (λ c h. omega (arith, up.saves c dir cfg.server tools w, h)) still ds

    -- A round leaves nothing pending that was not, and nothing becomes due later.
    round-IsDueWithin :
        (n : ℕ) (pending still : List ServerConfig) (w : W)
        → IsDueWithin n w pending
        → IsDueWithin n w still
        → IsDueWithin n
            (retry_round host dir pending (still, w)).1
            (retry_round host dir pending (still, w)).0
    unfolding retry_round
    round-IsDueWithin n [] still w ps ss = ss
    round-IsDueWithin n (cfg ∷ pending) still w (p, ps) ss =
        let (r, w1) = fetch_tools host.upstream cfg w in
        let fetched : (c : ServerConfig)
            → up.due c w ≤ n
            → up.due c (fetch_tools host.upstream cfg w).1 ≤ n =
          λ c h. omega (arith, up.fetches c cfg w, h) in
        let (still', w2) = retry_tried host dir cfg r still w1 in
        round-IsDueWithin n pending still' w2
          (All-map _ _ (λ c h. omega (arith, tried-due c cfg r still w1, fetched c h)) pending ps)
          (tried-IsDueWithin n cfg r still w1 (fetched cfg p) (All-map _ _ fetched still ss))

    -- Where every pending server is due, a round leaves none.
    round_clears :
        (pending : List ServerConfig) (w : W)
        → IsDueWithin 0 w pending
        → (retry_round host dir pending ([], w)).0 ≡ []
    unfolding retry_round retry_tried
    round_clears [] w ps = refl
    round_clears (cfg ∷ pending) w (p, ps) =
        let (found, is) = up.answers cfg w (omega (arith, p)) in
        rw (is, retry_round)
          (round_clears pending _ (
            All-map _ _
              (λ c h. omega (
                arith,
                up.saves c dir cfg.server found.0 (fetch_tools host.upstream cfg w).1,
                up.fetches c cfg w,
                h,
              ))
              pending ps))

    -- The loop has ended the process.
    abbrev pub Exits : Option (RetryEnd × W) → Type 0
    Exits r = (w' : W) × (r ≡ some (exited, w'))

    -- The rounds after the next one.
    abbrev Goes : ℕ → ℕ → Type 0
    Goes n backoff =
        (c : ServerConfig) (cs : List ServerConfig) (w : W)
        → n ≢ 0
        → IsDueWithin n w (c ∷ cs)
        → Exits (retry_from host dir pause n backoff (c ∷ cs) w)

    after_round :
        (n backoff : ℕ) (s : List ServerConfig × W)
        → IsDueWithin n s.1 s.0
        → (n ≡ 0 → s.0 ≡ [])
        → Goes n backoff
        → Exits (elim s.0 [
          | [] ↦ some (exited, s.1)
          | c ∷ cs ↦ retry_from host dir pause n backoff (c ∷ cs) s.1
        ])
    after_round n backoff ([], w) ds cleared more = (w, refl)
    after_round n backoff (c ∷ cs, w) ds cleared more =
        more c cs w (λ last. absurd (cc (cleared last))) ds

    first_round :
        (n backoff : ℕ) (cfg : ServerConfig) (cfgs : List ServerConfig) (w : W)
        → Goes n (next_retry_backoff backoff)
        → IsDueWithin (suc n) w (cfg ∷ cfgs)
        → Exits (retry_from host dir pause (suc n) backoff (cfg ∷ cfgs) w)
    unfolding retry_from
    first_round n backoff cfg cfgs w more ds =
        let (w1, paused, sooner) = up.waits backoff w in
        let left : IsDueWithin n w1 (cfg ∷ cfgs) =
          All-map _ _ (λ c h. omega (arith, sooner c, h)) (cfg ∷ cfgs) ds in
        rw (paused, retry_from)
          (after_round n (next_retry_backoff backoff) (retry_round host dir (cfg ∷ cfgs) ([], w1))
            (round-IsDueWithin n (cfg ∷ cfgs) [] w1 left tt)
            (λ last.
              round_clears (cfg ∷ cfgs) w1 (subst (λ k. IsDueWithin k w1 (cfg ∷ cfgs)) last left))
            more)

    retry_from-Exits :
        (n backoff : ℕ) (cfg : ServerConfig) (cfgs : List ServerConfig) (w : W)
        → IsDueWithin (suc n) w (cfg ∷ cfgs)
        → Exits (retry_from host dir pause (suc n) backoff (cfg ∷ cfgs) w)
    retry_from-Exits zero backoff cfg cfgs w ds =
        first_round 0 backoff cfg cfgs w (λ c cs w' some_left. absurd (some_left refl)) ds
    retry_from-Exits (suc n) backoff cfg cfgs w ds =
        first_round (suc n) backoff cfg cfgs w
          (λ c cs w' some_left. retry_from-Exits n (next_retry_backoff backoff) c cs w') ds

    -- `retryLoop` ends the process, after at most as many rounds as the servers that it was started
    -- for take to come up.
    pub retry_loop-Exits :
        (n : ℕ) (r : Registry) (w : W)
        → r.failed_servers ≢ []
        → IsDueWithin (suc n) w r.failed_servers
        → Exits (retry_loop host dir pause (suc n) r w)
    unfolding retry_loop
    retry_loop-Exits n r w = started r.failed_servers
      where
        started :
            (cfgs : List ServerConfig)
            → cfgs ≢ []
            → IsDueWithin (suc n) w cfgs
            → Exits (retry_from host dir pause (suc n) 1 cfgs w)
        started [] some_failed ds = absurd (some_failed refl)
        started (cfg ∷ cfgs) some_failed ds = retry_from-Exits n 1 cfg cfgs w ds
