-- ===== src/Plugin/Registry/Build/Consistent.antt =====
-- A built registry announces exactly the actions that it can execute, under the names that it gives
-- them, and knows which of them are offline.
use mathlib.Core.Path.{subst}
use mathlib.Core.List.{Memᴰ}
use mcp_plugin.Base.Tests.{
  ℕ, ◌≡◌, refl, sym, ◌⊎◌, inl, inr, Bool, false, ◌||◌, Option, none, some, List, [], ◌∷◌, ◌++◌,
  arith, Result, ok, err,
}
use mcp_plugin.Base.Members.{Memᴰ-append_left, Memᴰ-concat}
use mcp_plugin.Base.Text.{Text, ◌==◌}
use mcp_plugin.Base.Dict.{Dict, lookup, insert, has_key, lookup-insert, lookup-insert_cases}
use mcp_plugin.Config.Expand.{ServerConfig}
use mcp_plugin.Mcp.Types.Tools.{Tool}
use mcp_plugin.Plugin.Types.{Entry, ActionMsg, Registry}
use mcp_plugin.Plugin.Upstream.{Host}
use mcp_plugin.Plugin.Registry.Meta.{action_name}
use mcp_plugin.Plugin.Registry.Fetch.{fetch_tools}
use mcp_plugin.Plugin.Registry.Build.{
  Progress, start, entry_of, action_of, add_tool, add_tools, add_texts, add_live, add_unreachable,
  cached_tools, add_fetched, add_server, add_servers, finish, build,
}

-- Whether the capabilities list an action of the name `k`.
unfoldable pub announces : List ActionMsg → Text → Bool
announces [] k = false
announces (a ∷ as') k = a.name == k || announces as' k

pub record IsConsistent (r : Registry) : Type 0 where
  -- the host is told of exactly the actions that `Execute` finds
  pub same_actions : (k : Text) → announces r.caps.actions k ≡ has_key k r.actions
  -- an action's name is the server's and the tool's
  pub named :
      (k : Text) (e : Entry)
      → lookup k r.actions ≡ some e
      → k ≡ action_name e.cfg.server e.mcp_tool_name
  -- an entry without a client belongs to a server that is recorded as offline
  pub offline :
      (k : Text) (e : Entry)
      → lookup k r.actions ≡ some e
      → e.client ≡ none
      → Memᴰ e.cfg r.offline_servers

announces-append :
    (as' : List ActionMsg) (a : ActionMsg) (k : Text)
    → announces (as' ++ a ∷ []) k ≡ announces as' k || a.name == k
unfolding announces
announces-append [] a k = ground arith
announces-append (b ∷ as') a k = ground (arith, announces-append as' a k)

has_key-insert {ℓ} :
    {V : Type ℓ} (k j : Text) (v : V) (m : Dict V)
    → has_key j (insert k v m) ≡ k == j || has_key j m
unfolding has_key
has_key-insert k j v m = rw (lookup-insert k j v m) (ground arith)

module _ {W : Type 0} (host : Host W) where
  action_of-name :
      (cfg : ServerConfig) (client : Option ℕ) (tool : Tool)
      → (action_of host cfg client tool).name ≡ action_name cfg.server tool.name
  unfolding action_of
  action_of-name cfg client tool = refl

  add_tool-IsConsistent :
      (cfg : ServerConfig) (client : Option ℕ) (tool : Tool) (r : Registry)
      → (client ≡ none → Memᴰ cfg r.offline_servers)
      → IsConsistent r
      → IsConsistent (add_tool host cfg client tool r)
  unfolding add_tool
  add_tool-IsConsistent cfg client tool r known c = record {
    same_actions = λ k. ground (
      arith,
      announces-append r.caps.actions (action_of host cfg client tool) k,
      has_key-insert (action_name cfg.server tool.name) k (entry_of cfg client tool) r.actions,
      c.same_actions k,
      action_of-name cfg client tool,
    );
    named = λ k e h. elim (found k e h) [
      | inl (same, is) ↦ subst (λ x. k ≡ action_name x.cfg.server x.mcp_tool_name) is (sym same)
      | inr old ↦ c.named k e old
    ];
    offline = λ k e h dead. elim (found k e h) [
      | inl (same, is) ↦ subst (λ x. x.client ≡ none → Memᴰ x.cfg r.offline_servers) is known dead
      | inr old ↦ c.offline k e old dead
    ];
  }
    where
      found :
          (k : Text) (e : Entry)
          → lookup k
              (insert (action_name cfg.server tool.name) (entry_of cfg client tool) r.actions)
            ≡ some e
          → ((action_name cfg.server tool.name ≡ k) × (entry_of cfg client tool ≡ e))
            ⊎ (lookup k r.actions ≡ some e)
      found k e h =
          lookup-insert_cases (action_name cfg.server tool.name) k (entry_of cfg client tool) e
            r.actions h

  offline_servers-add_tools :
      (cfg : ServerConfig) (client : Option ℕ) (tools : List Tool) (r : Registry)
      → (add_tools host cfg client tools r).offline_servers ≡ r.offline_servers
  unfolding add_tools add_tool
  offline_servers-add_tools cfg client [] r = refl
  offline_servers-add_tools cfg client (tool ∷ tools) r =
      offline_servers-add_tools cfg client tools (add_tool host cfg client tool r)

  add_tools-IsConsistent :
      (cfg : ServerConfig) (client : Option ℕ) (tools : List Tool) (r : Registry)
      → (client ≡ none → Memᴰ cfg r.offline_servers)
      → IsConsistent r
      → IsConsistent (add_tools host cfg client tools r)
  unfolding add_tools
  add_tools-IsConsistent cfg client [] r known c = c
  add_tools-IsConsistent cfg client (tool ∷ tools) r known c =
      add_tools-IsConsistent cfg client tools (add_tool host cfg client tool r)
        (unfold add_tool in known) (add_tool-IsConsistent cfg client tool r known c)

  add_texts-IsConsistent :
      (cfg : ServerConfig) (client : ℕ) (w : W) (r : Registry)
      → IsConsistent r
      → IsConsistent (add_texts host cfg client w r)
  unfolding add_texts
  add_texts-IsConsistent cfg client w r c = record {
    same_actions = c.same_actions;
    named = c.named;
    offline = c.offline;
  }

  add_failed-IsConsistent :
      (failed : List ServerConfig) (r : Registry)
      → IsConsistent r
      → IsConsistent (record r { failed_servers = failed })
  add_failed-IsConsistent failed r c = record {
    same_actions = c.same_actions;
    named = c.named;
    offline = c.offline;
  }

  add_offline-IsConsistent :
      (cfg : ServerConfig) (r : Registry)
      → IsConsistent r
      → IsConsistent (record r { offline_servers = r.offline_servers ++ cfg ∷ [] })
  add_offline-IsConsistent cfg r c = record {
    same_actions = c.same_actions;
    named = c.named;
    offline = λ k e h dead. Memᴰ-append_left cfg (c.offline k e h dead);
  }

  add_unreachable-IsConsistent :
      (cfg : ServerConfig) (tools : List Tool) (p : Progress)
      → IsConsistent p.registry
      → IsConsistent (add_unreachable host cfg tools p).registry
  unfolding add_unreachable
  add_unreachable-IsConsistent cfg [] p c = add_failed-IsConsistent _ p.registry c
  add_unreachable-IsConsistent cfg (t ∷ ts) p c =
      add_tools-IsConsistent cfg none (t ∷ ts) _ (λ _. Memᴰ-concat p.registry.offline_servers cfg)
        (add_offline-IsConsistent cfg p.registry c)

  add_live-IsConsistent :
      (cfg : ServerConfig) (tools : List Tool) (client : ℕ) (w : W) (p : Progress)
      → IsConsistent p.registry
      → IsConsistent (add_live host cfg tools client w p).registry
  unfolding add_live
  add_live-IsConsistent cfg tools client w p c =
      add_tools-IsConsistent cfg (some client) tools _ (λ e. cc)
        (add_texts-IsConsistent cfg client w p.registry c)

  add_fetched-IsConsistent :
      (cache_dir : Text) (cfg : ServerConfig) (r : Result (List Tool × ℕ)) (w : W) (p : Progress)
      → IsConsistent p.registry
      → IsConsistent (add_fetched host cache_dir cfg r w p).0.registry
  unfolding add_fetched
  add_fetched-IsConsistent cache_dir cfg (ok (tools, client)) w p c =
      add_live-IsConsistent cfg tools client _ p c
  add_fetched-IsConsistent cache_dir cfg (err e) w p c =
      add_unreachable-IsConsistent cfg (cached_tools host cache_dir cfg.server w) p c

  add_servers-IsConsistent :
      (cache_dir : Text) (cfgs : List ServerConfig) (s : Progress × W)
      → IsConsistent s.0.registry
      → IsConsistent (add_servers host cache_dir cfgs s).0.registry
  unfolding add_servers add_server
  add_servers-IsConsistent cache_dir [] s c = c
  add_servers-IsConsistent cache_dir (cfg ∷ cfgs) s c =
      add_servers-IsConsistent cache_dir cfgs (add_server host cache_dir cfg s) (
        add_fetched-IsConsistent cache_dir cfg (fetch_tools host.upstream cfg s.1).0
          (fetch_tools host.upstream cfg s.1).1 s.0 c)

  start-IsConsistent : IsConsistent start.registry
  unfolding announces has_key lookup
  start-IsConsistent = record {
    same_actions = λ k. refl;
    named = λ k e h. cc;
    offline = λ k e h dead. cc;
  }

  -- Whatever the servers answer and whatever the cache holds, the registry that `Build` returns
  -- announces an action exactly if `Execute` finds it, names it "<server>__<tool>", and has a client
  -- for it unless its server is among the offline ones.
  pub build-IsConsistent :
      (cache_dir : Text) (cfgs : List ServerConfig) (w : W)
      → IsConsistent (build host cache_dir cfgs w).0
  unfolding build finish
  build-IsConsistent cache_dir cfgs w =
      let c = add_servers-IsConsistent cache_dir cfgs (start, w) start-IsConsistent in
      record { same_actions = c.same_actions; named = c.named; offline = c.offline }
