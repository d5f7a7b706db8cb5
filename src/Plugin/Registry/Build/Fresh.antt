-- ===== src/Plugin/Registry/Build/Fresh.antt =====
-- The clients of a new registry are new.
use mcp_plugin.Base.Tests.{
  ℕ, ◌≡◌, ◌≢◌, refl, ◌∙◌, inl, inr, false, Option, none, some, List, [], ◌∷◌, arith, nat_eq, Result,
  ok, err, Bool-cases,
}
use mcp_plugin.Base.Text.{Text}
use mcp_plugin.Base.Dict.{Dict, insert}
use mcp_plugin.Config.Expand.{ServerConfig}
use mcp_plugin.Mcp.Types.Tools.{Tool}
use mcp_plugin.Plugin.Types.{Entry, Registry}
use mcp_plugin.Plugin.Upstream.{Host}
use mcp_plugin.Plugin.Registry.Fetch.{
  listed, list_again, list_or_fall_back, fetch_connected, fetch_tools,
}
use mcp_plugin.Plugin.Registry.Fetch.Owned.{Contract, fetch_tools-Fetched}
use mcp_plugin.Plugin.Registry.Build.{
  Progress, start, add_tool, add_tools, add_texts, add_live, add_unreachable, cached_tools,
  add_fetched, add_server, add_servers, finish, build,
}
use mcp_plugin.Plugin.Registry.Build.Owned.{add_server-Kept}
use mcp_plugin.Plugin.Registry.Live.Closing.{is_client, holds}

holds-insert :
    (x : ℕ) (k : Text) (e : Entry) (m : Dict Entry)
    → is_client e.client x ≡ false
    → holds x m ≡ false
    → holds x (insert k e m) ≡ false
unfolding holds insert
holds-insert x k e [] new old = ground arith
holds-insert x k e ((j, f) ∷ m) new old = ground (arith, holds-insert x k e m)

-- A fetch that succeeds gives this client.
abbrev IsOf : ℕ → Result (List Tool × ℕ) → Type 0
IsOf n r = (tools : List Tool) (m : ℕ) → r ≡ ok (tools, m) → m ≡ n

module _ {W : Type 0} (host : Host W) where
  listed-IsOf : (r : Result (List Tool)) (n : ℕ) (w : W) → IsOf n (listed host.upstream r n w).0
  unfolding listed
  listed-IsOf (ok tools) n w ts m e = cc e
  listed-IsOf (err f) n w ts m e = absurd (cc e)

  list_again-IsOf :
      (failed : Option Text) (f : Text) (n : ℕ) (w : W)
      → IsOf n (list_again host.upstream failed f n w).0
  unfolding list_again
  list_again-IsOf (some s) f n w ts m e = absurd (cc e)
  list_again-IsOf none f n w ts m e =
      listed-IsOf (host.upstream.list_tools n w).0 n (host.upstream.list_tools n w).1 ts m e

  list_or_fall_back-IsOf :
      (r : Result (List Tool)) (n : ℕ) (w : W) → IsOf n (list_or_fall_back host.upstream r n w).0
  unfolding list_or_fall_back
  list_or_fall_back-IsOf (ok tools) n w = λ ts m e. cc e
  list_or_fall_back-IsOf (err f) n w = elim (Bool-cases (host.upstream.is_streamable n w)) [
    | inl fall ↦
        rw fall (
          list_again-IsOf (host.upstream.fallback_sse n w).0 f n (host.upstream.fallback_sse n w).1)
    | inr stay ↦ rw stay (λ ts m e. absurd (cc e))
  ]

  module _ (P : ℕ → W → Type 0) (c : Contract host P) where
    fetch_connected_fresh :
        (r : Result ℕ) (x n : ℕ) (tools : List Tool) (w : W)
        → ((k : ℕ) → r ≡ ok k → x ≢ k)
        → (fetch_connected host.upstream r w).0 ≡ ok (tools, n)
        → x ≢ n
    unfolding fetch_connected
    fetch_connected_fresh (err f) x n tools w new e = absurd (cc e)
    fetch_connected_fresh (ok k) x n tools w new e = λ same. new k refl (
        same
        ∙ list_or_fall_back-IsOf (host.upstream.list_tools k w).0 k (host.upstream.list_tools k w).1
            tools n e)

    fetch_tools_fresh :
        (cfg : ServerConfig) (x n : ℕ) (tools : List Tool) (w : W)
        → P x w
        → (fetch_tools host.upstream cfg w).0 ≡ ok (tools, n)
        → x ≢ n
    unfolding fetch_tools
    fetch_tools_fresh cfg x n tools w has e =
        fetch_connected_fresh (host.upstream.connect cfg w).0 x n tools
          (host.upstream.connect cfg w).1 (λ k made. c.fresh cfg x k w made has) e

    holds-add_tools :
        (cfg : ServerConfig) (client : Option ℕ) (tools : List Tool) (x : ℕ) (r : Registry)
        → is_client client x ≡ false
        → holds x r.actions ≡ false
        → holds x (add_tools host cfg client tools r).actions ≡ false
    unfolding add_tools add_tool
    holds-add_tools cfg client [] x r new old = old
    holds-add_tools cfg client (tool ∷ tools) x r new old =
        holds-add_tools cfg client tools x (add_tool host cfg client tool r) new
          (holds-insert x _ _ r.actions new old)

    holds-add_fetched :
        (cache_dir : Text) (cfg : ServerConfig) (r : Result (List Tool × ℕ)) (x : ℕ) (w : W)
        (p : Progress)
        → ((tools : List Tool) (n : ℕ) → r ≡ ok (tools, n) → x ≢ n)
        → holds x p.registry.actions ≡ false
        → holds x (add_fetched host cache_dir cfg r w p).0.registry.actions ≡ false
    unfolding add_fetched add_live add_texts add_unreachable
    holds-add_fetched cache_dir cfg (ok (tools, n)) x w p new old =
        holds-add_tools cfg (some n) tools x _ (other (new tools n refl)) old
      where
        other : x ≢ n → nat_eq x n ≡ false
        other apart = ground arith
    holds-add_fetched cache_dir cfg (err e) x w p new old =
        unreachable (cached_tools host cache_dir cfg.server w)
      where
        unreachable :
            (tools : List Tool)
            → holds x (add_unreachable host cfg tools p).registry.actions ≡ false
        unreachable [] = old
        unreachable (t ∷ ts) = holds-add_tools cfg none (t ∷ ts) x _ refl old

    holds-add_servers :
        (cache_dir : Text) (cfgs : List ServerConfig) (x : ℕ) (s : Progress × W)
        → P x s.1
        → holds x s.0.registry.actions ≡ false
        → holds x (add_servers host cache_dir cfgs s).0.registry.actions ≡ false
    unfolding add_servers add_server
    holds-add_servers cache_dir [] x s has old = old
    holds-add_servers cache_dir (cfg ∷ cfgs) x s has old =
        let (r, w') = fetch_tools host.upstream cfg s.1 in
        holds-add_servers cache_dir cfgs x (add_server host cache_dir cfg s)
          (add_server-Kept host P c cache_dir cfg s.0 r s.1 w'
            (fetch_tools-Fetched host P c cfg s.1).0 x has)
          (holds-add_fetched cache_dir cfg r x w' s.0
            (λ tools n e. fetch_tools_fresh cfg x n tools s.1 has e) old)

    -- A client that was there before is no client of a registry that is built.
    pub holds-build :
        (cache_dir : Text) (cfgs : List ServerConfig) (x : ℕ) (w : W)
        → P x w
        → holds x (build host cache_dir cfgs w).0.actions ≡ false
    unfolding build finish holds
    holds-build cache_dir cfgs x w has = holds-add_servers cache_dir cfgs x (start, w) has refl
