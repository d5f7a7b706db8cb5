-- ===== src/Plugin/Handler/Calls/Runs.antt =====
-- The calls, one after another, as steps of the handler.
use mathlib.Core.Path.{subst}
use mcp_plugin.Base.Tests.{
  ℕ, ◌≡◌, refl, sym, ap, ◌∙◌, ◌⊎◌, inl, inr, Option, none, some, List, [], ◌∷◌, Result, ok, err,
  Bool-cases, Option-cases,
}
use mcp_plugin.Base.Text.{Text}
use mcp_plugin.Base.Dict.{lookup}
use mcp_plugin.Config.Expand.{ServerConfig}
use mcp_plugin.Config.Parse.{PluginConfig, parse}
use mcp_plugin.Plugin.Types.{Entry, Registry}
use mcp_plugin.Plugin.Upstream.{Host}
use mcp_plugin.Plugin.Registry.Build.{build}
use mcp_plugin.Plugin.Registry.Live.{reconnect}
use mcp_plugin.Plugin.Handler.Execute.{
  Request, answered, call_with, forward_and_call, converted, call_live, after_reconnect,
  execute_client, execute,
}
use mcp_plugin.Plugin.Handler.Refresh.{
  Handler, coalesces, refresh_started, rebuild, refresh_capabilities, configure_with,
  configure_parsed, configure,
}
use mcp_plugin.Plugin.Handler.Refresh.Outcomes.{begin_coalesced, begin_started}
use mcp_plugin.Plugin.Handler.Refresh.System.{
  System, configured, begun, committed, cleared, reconnected, Reach, next,
}
use mcp_plugin.Plugin.Handler.Calls.{Call, answer, answer_all}

-- The handler with no call running.
abbrev pub idle : Handler → System
idle h = record { handler = h; tasks = [] }

module _ {W : Type 0} (host : Host W) where
  answered-registry :
      (id : Text) (reg : Registry) (r : Result (Text × Text) × W)
      → (answered host id reg r).1 ≡ some reg
  unfolding answered
  answered-registry id reg (ok (text, structured), w) = refl
  answered-registry id reg (err e, w) = refl

  call_live-registry :
      (req : Request) (e : Entry) (client : ℕ) (reg : Registry) (w : W)
      → (call_live host req e client reg w).1 ≡ some reg
  unfolding call_live forward_and_call call_with
  call_live-registry req e client reg w = elim (Option-cases (converted host req e reg)) [
    | inl panics ↦ rw (panics, call_live)
    | inr (args, is) ↦ rw (is, call_live) (answered-registry req.id reg _)
  ]

  after_reconnect-registry :
      (req : Request) (e : Entry) (t : Result ℕ × Registry × W)
      → (after_reconnect host req e t).1 ≡ some t.1
  unfolding after_reconnect
  after_reconnect-registry req e (err msg, reg, w) = refl
  after_reconnect-registry req e (ok client, reg, w) = call_live-registry req e client reg w

  -- What `Execute` leaves of a registry: the registry, or what a reconnect makes of it.
  abbrev IsReconnected : Registry → Option Registry → Type 0
  IsReconnected reg after =
      (after ≡ some reg)
      ⊎ ((cfg : ServerConfig) × (w : W) × (after ≡ some (reconnect host cfg reg w).1))

  execute_client-IsReconnected :
      (client : Option ℕ) (req : Request) (e : Entry) (reg : Registry) (w : W)
      → IsReconnected reg (execute_client host client req e reg w).1
  unfolding execute_client
  execute_client-IsReconnected none req e reg w =
      inr (e.cfg, w, after_reconnect-registry req e (reconnect host e.cfg reg w))
  execute_client-IsReconnected (some client) req e reg w =
      elim (Bool-cases (host.upstream.is_alive client w)) [
        | inl alive ↦ rw alive (inl (call_live-registry req e client reg w))
        | inr dead ↦
            rw dead (inr (e.cfg, w, after_reconnect-registry req e (reconnect host e.cfg reg w)))
      ]

  execute-IsReconnected :
      (req : Request) (reg : Registry) (w : W) → IsReconnected reg (execute host req (some reg) w).1
  unfolding execute
  execute-IsReconnected req reg w = elim (Option-cases (lookup req.action reg.actions)) [
    | inl unknown ↦ rw (unknown, execute) (inl refl)
    | inr (e, known) ↦ rw (known, execute) (execute_client-IsReconnected e.client req e reg w)
  ]

  execute_unconfigured : (req : Request) (w : W) → (execute host req none w).1 ≡ none
  unfolding execute
  execute_unconfigured req w = refl

  module _ (getenv : Text → Text) (cache_dir : Text) where
    abbrev IsReached : Handler → Type 0
    IsReached h = Reach host cache_dir (idle h)

    executed-IsReached :
        (h : Handler) (reg : Registry) (after : Option Registry)
        → h.registry ≡ some reg
        → IsReconnected reg after
        → IsReached h
        → IsReached (record h { registry = after })
    executed-IsReached h reg after has (inl same) reached =
        subst (λ r. IsReached (record h { registry = r })) (has ∙ sym same) reached
    executed-IsReached h reg after has (inr (cfg, w, is)) reached =
        subst (λ r. IsReached (record h { registry = r })) (sym is)
          (next reached (reconnected reg cfg w has))

    execute-IsReached :
        (req : Request) (h : Handler) (w : W)
        → IsReached h
        → IsReached (record h { registry = (execute host req h.registry w).1 })
    execute-IsReached req h w reached = elim (Option-cases h.registry) [
      | inl missing ↦
          subst (λ r. IsReached (record h { registry = r }))
            (missing
              ∙ sym (ap (λ r. (execute host req r w).1) missing ∙ execute_unconfigured req w))
            reached
      | inr (reg, has) ↦
          executed-IsReached h reg _ has
            (subst (λ r. IsReconnected reg (execute host req r w).1) (sym has)
              (execute-IsReconnected req reg w))
            reached
    ]

    configure_with-IsReached :
        (cfgs : List ServerConfig) (h : Handler) (w : W)
        → IsReached h
        → IsReached (configure_with host cache_dir cfgs h w).1
    unfolding configure_with
    configure_with-IsReached [] h w reached = reached
    configure_with-IsReached (cfg ∷ cfgs) h w reached = next reached (
        configured (cfg ∷ cfgs) (build host cache_dir (cfg ∷ cfgs) w).0 (w, refl)
          (λ e. absurd (cc e)))

    configure_parsed-IsReached :
        (r : Result PluginConfig) (h : Handler) (w : W)
        → IsReached h
        → IsReached (configure_parsed host cache_dir r h w).1
    unfolding configure_parsed
    configure_parsed-IsReached (err e) h w reached = reached
    configure_parsed-IsReached (ok cfg) h w reached =
        configure_with-IsReached cfg.servers h w reached

    refresh-IsReached :
        (h : Handler) (w : W) → IsReached h → IsReached (refresh_capabilities host cache_dir h w).1
    unfolding refresh_capabilities refresh_started rebuild
    refresh-IsReached h w reached = elim (Bool-cases (coalesces h)) [
      | inl busy ↦ rw (begin_coalesced h busy, refresh_capabilities) reached
      | inr free ↦
          rw (begin_started h free, refresh_capabilities)
            (next
              (next (next reached (begun free)) (
                committed [] [] h.server_cfgs (build host cache_dir h.server_cfgs w).0 refl
                  (w, refl)))
              (cleared [] [] refl))
    ]

    answer-IsReached :
        (call : Call) (h : Handler) (w : W)
        → IsReached h
        → IsReached (answer host getenv cache_dir call h w).0
    unfolding answer configure
    answer-IsReached (Call.configure config_json) h w reached =
        configure_parsed-IsReached (parse host.shape getenv config_json) h w reached
    answer-IsReached Call.capabilities h w reached = reached
    answer-IsReached Call.refresh_capabilities h w reached = refresh-IsReached h w reached
    answer-IsReached (Call.execute req) h w reached = execute-IsReached req h w reached

    -- Calls of the methods, one after another and in any order, are steps of the handler: where they
    -- start from a state that steps reach, they end in one, and none is left running.
    pub answer_all-Reach :
        (calls : List Call) (h : Handler) (w : W)
        → Reach host cache_dir (idle h)
        → Reach host cache_dir (idle (answer_all host getenv cache_dir calls (h, w)).0)
    unfolding answer_all
    answer_all-Reach [] h w reached = reached
    answer_all-Reach (call ∷ calls) h w reached =
        answer_all-Reach calls (answer host getenv cache_dir call h w).0
          (answer host getenv cache_dir call h w).1 (answer-IsReached call h w reached)
