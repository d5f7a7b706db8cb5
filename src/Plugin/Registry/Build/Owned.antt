-- ===== src/Plugin/Registry/Build/Owned.antt =====
-- What holds of a client that was connected, holds of every client in the registry that is built.
use mathlib.Core.Path.{subst}
use mcp_plugin.Base.Tests.{
  ℕ, ◌≡◌, refl, ap, ◌∙◌, inl, inr, Option, none, some, List, [], ◌∷◌, Result, ok, err,
}
use mcp_plugin.Base.Text.{Text}
use mcp_plugin.Base.Dict.{lookup, lookup-insert_cases}
use mcp_plugin.Config.Expand.{ServerConfig}
use mcp_plugin.Mcp.Types.Tools.{Tool}
use mcp_plugin.Plugin.Types.{Entry, Registry}
use mcp_plugin.Plugin.Upstream.{Host}
use mcp_plugin.Plugin.Registry.Meta.{action_name}
use mcp_plugin.Plugin.Registry.Fetch.{fetch_tools}
use mcp_plugin.Plugin.Registry.Build.{
  Progress, start, entry_of, add_tool, add_tools, add_texts, add_live, add_unreachable,
  cached_tools, add_fetched, add_server, add_servers, finish, build,
}
use mcp_plugin.Plugin.Registry.Fetch.Owned.{Contract, Kept, fetch_tools-Fetched, refresh_cache-Kept}

module _ {W : Type 0} (host : Host W) (P : ℕ → W → Type 0) (c : Contract host P) where
  -- Every client of the registry has the property.
  abbrev pub HasClients : Registry → W → Type 0
  HasClients r w =
      (k : Text) (e : Entry) (n : ℕ) → lookup k r.actions ≡ some e → e.client ≡ some n → P n w

  add_tool-HasClients :
      (cfg : ServerConfig) (client : Option ℕ) (tool : Tool) (r : Registry) (w : W)
      → ((n : ℕ) → client ≡ some n → P n w)
      → HasClients r w
      → HasClients (add_tool host cfg client tool r) w
  unfolding add_tool
  add_tool-HasClients cfg client tool r w new old k e n found has =
      elim (lookup-insert_cases (action_name cfg.server tool.name) k (entry_of cfg client tool) e
        r.actions found) [
          | inl (same, is) ↦ new n (ap (λ (x : Entry). x.client) is ∙ has)
          | inr before ↦ old k e n before has
        ]

  add_tools-HasClients :
      (cfg : ServerConfig) (client : Option ℕ) (tools : List Tool) (r : Registry) (w : W)
      → ((n : ℕ) → client ≡ some n → P n w)
      → HasClients r w
      → HasClients (add_tools host cfg client tools r) w
  unfolding add_tools
  add_tools-HasClients cfg client [] r w new old = old
  add_tools-HasClients cfg client (tool ∷ tools) r w new old =
      add_tools-HasClients cfg client tools (add_tool host cfg client tool r) w new
        (add_tool-HasClients cfg client tool r w new old)

  add_fetched-HasClients :
      (cache_dir : Text) (cfg : ServerConfig) (r : Result (List Tool × ℕ)) (w : W) (p : Progress)
      → ((tools : List Tool) (n : ℕ) → r ≡ ok (tools, n) → P n w)
      → HasClients p.registry w
      → HasClients
          (add_fetched host cache_dir cfg r w p).0.registry
          (add_fetched host cache_dir cfg r w p).1
  unfolding add_fetched add_live add_texts add_unreachable
  add_fetched-HasClients cache_dir cfg (ok (tools, client)) w p new old =
      let kept = refresh_cache-Kept host P c cache_dir cfg.server tools w in
      add_tools-HasClients cfg (some client) tools _ _
        (λ n e. kept n (subst (λ x. P x w) (cc e) (new tools client refl)))
        (λ k e n found has. kept n (old k e n found has))
  add_fetched-HasClients cache_dir cfg (err e) w p new old =
      unreachable (cached_tools host cache_dir cfg.server w)
    where
      unreachable : (tools : List Tool) → HasClients (add_unreachable host cfg tools p).registry w
      unreachable [] = old
      unreachable (t ∷ ts) = add_tools-HasClients cfg none (t ∷ ts) _ w (λ n h. absurd (cc h)) old

  add_servers-HasClients :
      (cache_dir : Text) (cfgs : List ServerConfig) (s : Progress × W)
      → HasClients s.0.registry s.1
      → HasClients
          (add_servers host cache_dir cfgs s).0.registry
          (add_servers host cache_dir cfgs s).1
  unfolding add_servers add_server
  add_servers-HasClients cache_dir [] s old = old
  add_servers-HasClients cache_dir (cfg ∷ cfgs) s old =
      let (kept, new) = fetch_tools-Fetched host P c cfg s.1 in
      add_servers-HasClients cache_dir cfgs (add_server host cache_dir cfg s) (
        add_fetched-HasClients cache_dir cfg (fetch_tools host.upstream cfg s.1).0
          (fetch_tools host.upstream cfg s.1).1 s.0 new
          (λ k e n found has. kept n (old k e n found has)))

  pub add_server-Kept :
      (cache_dir : Text) (cfg : ServerConfig) (p : Progress) (r : Result (List Tool × ℕ)) (w w' : W)
      → Kept host P c w w'
      → Kept host P c w (add_fetched host cache_dir cfg r w' p).1
  unfolding add_fetched
  add_server-Kept cache_dir cfg p (ok (tools, n)) w w' kept m has =
      refresh_cache-Kept host P c cache_dir cfg.server tools w' m (kept m has)
  add_server-Kept cache_dir cfg p (err e) w w' kept m has = kept m has

  add_servers-Kept :
      (cache_dir : Text) (cfgs : List ServerConfig) (s : Progress × W)
      → Kept host P c s.1 (add_servers host cache_dir cfgs s).1
  unfolding add_servers add_server
  add_servers-Kept cache_dir [] s m has = has
  add_servers-Kept cache_dir (cfg ∷ cfgs) s m has =
      let (r, w') = fetch_tools host.upstream cfg s.1 in
      add_servers-Kept cache_dir cfgs (add_server host cache_dir cfg s) m
        (add_server-Kept cache_dir cfg s.0 r s.1 w' (fetch_tools-Fetched host P c cfg s.1).0 m has)

  -- A build takes the property from no client that has it.
  pub build-Kept :
      (cache_dir : Text) (cfgs : List ServerConfig) (w : W)
      → Kept host P c w (build host cache_dir cfgs w).1
  unfolding build
  build-Kept cache_dir cfgs w = add_servers-Kept cache_dir cfgs (start, w)

  -- Whatever the servers answer, every client in the registry that `Build` returns has the property
  -- that connecting gives.
  pub build-HasClients :
      (cache_dir : Text) (cfgs : List ServerConfig) (w : W)
      → HasClients (build host cache_dir cfgs w).0 (build host cache_dir cfgs w).1
  unfolding build finish lookup
  build-HasClients cache_dir cfgs w =
      add_servers-HasClients cache_dir cfgs (start, w) (λ k e n found has. absurd (cc found))
