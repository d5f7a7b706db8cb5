-- ===== src/Plugin/Registry/Backoff.antt =====
-- plugin/registry.go: the waits of `retryLoop` and `reconnectOfflineLoop`, in seconds.
use mcp_plugin.Base.Tests.{ℕ, zero, suc, ◌*◌, ◌≤◌, ◌<◌, ◌≡◌, refl, arith, ltb, if◌then◌else◌}

-- `maxBackoff` of `retryLoop`
abbrev pub max_retry_backoff : ℕ
max_retry_backoff = 30

-- `maxBackoff` of `reconnectOfflineLoop`
abbrev pub max_offline_backoff : ℕ
max_offline_backoff = 120

-- The end of a round of `retryLoop`: the limit is only compared with.
unfoldable pub next_retry_backoff : ℕ → ℕ
next_retry_backoff backoff = if ltb backoff max_retry_backoff then backoff * 2 else backoff

-- The end of a round of `reconnectOfflineLoop`.
unfoldable pub next_offline_backoff : ℕ → ℕ
next_offline_backoff backoff =
    if ltb backoff max_offline_backoff
    then (if ltb max_offline_backoff (backoff * 2) then max_offline_backoff else backoff * 2)
    else backoff

-- The wait before round `n`, counted from 0.
unfoldable pub retry_backoff : ℕ → ℕ
retry_backoff zero = 1
retry_backoff (suc n) = next_retry_backoff (retry_backoff n)

unfoldable pub offline_backoff : ℕ → ℕ
offline_backoff zero = 5
offline_backoff (suc n) = next_offline_backoff (offline_backoff n)

-- The waits of `reconnectOfflineLoop` never shrink, and never pass its limit.
pub offline_backoff_bounds :
    (n : ℕ)
    → (5 ≤ offline_backoff n)
      × (offline_backoff n ≤ offline_backoff (suc n))
      × (offline_backoff n ≤ max_offline_backoff)
unfolding offline_backoff next_offline_backoff
offline_backoff_bounds zero = omega arith
offline_backoff_bounds (suc n) =
    let (low, grows, high) = offline_backoff_bounds n in (ground arith, ground arith, ground arith)

retry_backoff_5 : (n : ℕ) → retry_backoff (suc (suc (suc (suc (suc n))))) ≡ 32
unfolding retry_backoff next_retry_backoff
retry_backoff_5 zero = refl
retry_backoff_5 (suc n) = rw (retry_backoff_5 n, retry_backoff)

-- From its sixth round on, `retryLoop` waits 32 seconds each time: more than its `maxBackoff`.
pub retry_backoff_passes_limit :
    (n : ℕ) → 5 ≤ n → (retry_backoff n ≡ 32) × (max_retry_backoff < retry_backoff n)
retry_backoff_passes_limit (suc (suc (suc (suc (suc n))))) h =
    (retry_backoff_5 n, omega (arith, retry_backoff_5 n))
retry_backoff_passes_limit _ h = absurd (omega arith)
