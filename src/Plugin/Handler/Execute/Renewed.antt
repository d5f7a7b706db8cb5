-- ===== src/Plugin/Handler/Execute/Renewed.antt =====
-- `Execute` where the action's entry has no living client.
use mathlib.Core.Option
use mcp_plugin.Base.Tests.{
  ℕ, ◌≡◌, refl, ◌∙◌, ◌⊎◌, inl, inr, Bool, false, Option, none, some, Result, ok, err, Option-cases,
}
use mcp_plugin.Base.Text.{Text}
use mcp_plugin.Base.Dict.{Dict, lookup}
use mcp_plugin.Plugin.Types.{Entry, Registry}
use mcp_plugin.Plugin.Upstream.{Host}
use mcp_plugin.Plugin.Args.Value.{Value}
use mcp_plugin.Plugin.Registry.Live.{set_client, reconnect, reconnected}
use mcp_plugin.Plugin.Registry.Live.Reconnect.{renewed, lookup-set_client}
use mcp_plugin.Plugin.Handler.Execute.{
  Request, error, panic, answered, call_with, forward_and_call, converted, call_live,
  offline_message, after_reconnect, execute_client, execute,
}
use mcp_plugin.Plugin.Handler.Execute.Laws.{
  Sends, sent_call, sent_call-Sends, execute_known, call_live-converted,
}

module _ {W : Type 0} (host : Host W) where
  abbrev pub has_live : Option ℕ → W → Bool
  has_live none w = false
  has_live (some client) w = host.upstream.is_alive client w

  -- What `execute` is, by the outcome of the connection that it tries in the world `w`.
  abbrev pub Renewed : Request → Entry → Registry → W → Result ℕ → W → Type 0
  Renewed req e reg w (err msg) w' =
      execute host req (some reg) w
      ≡ (error req.id (offline_message host e.cfg.server msg), some reg, w')
  Renewed req e reg w (ok n) w' =
      (new : Registry) × ((k : Text)
        → lookup k new.actions ≡ Option.map (renewed e.cfg.server n) (lookup k reg.actions))
      × (((converted host req e new ≡ none)
            × (execute host req (some reg) w ≡ (panic, some new, w')))
          ⊎ ((sent : Dict Value) × (headers : Dict Text) × (execute host req (some reg) w
                ≡ answered host req.id new
                    (host.upstream.call_tool n e.mcp_tool_name sent headers w'))
              × Sends host req e sent))

  execute_client_dead :
      (req : Request) (e : Entry) (o : Option ℕ) (reg : Registry) (w : W)
      → has_live o w ≡ false
      → execute_client host o req e reg w ≡ after_reconnect host req e (reconnect host e.cfg reg w)
  unfolding execute_client
  execute_client_dead req e none reg w dead = refl
  execute_client_dead req e (some client) reg w dead = rw dead

  called :
      (req : Request) (e : Entry) (n : ℕ) (new : Registry) (old : Registry) (w w' : W)
      → execute host req (some old) w ≡ call_live host req e n new w'
      → ((converted host req e new ≡ none)
          × (execute host req (some old) w ≡ (panic, some new, w')))
        ⊎ ((sent : Dict Value) × (headers : Dict Text) × (execute host req (some old) w
              ≡ answered host req.id new
                  (host.upstream.call_tool n e.mcp_tool_name sent headers w'))
            × Sends host req e sent)
  unfolding forward_and_call call_with call_live
  called req e n new old w w' runs = elim (Option-cases (converted host req e new)) [
    | inl panics ↦ inl (panics, runs ∙ rw (panics, call_live) refl)
    | inr (args, converts) ↦ inr (
      (sent_call host req e args).0,
      (sent_call host req e args).1,
      runs ∙ call_live-converted host req new e n args w' converts,
      sent_call-Sends host req e new args converts,
    )
  ]

  after_reconnect-Renewed :
      (req : Request) (e : Entry) (reg : Registry) (w w' : W) (r : Result ℕ)
      → execute host req (some reg) w ≡ after_reconnect host req e (reconnected host e.cfg r w' reg)
      → Renewed req e reg w r w'
  unfolding after_reconnect reconnected
  after_reconnect-Renewed req e reg w w' (err msg) runs = runs
  after_reconnect-Renewed req e reg w w' (ok n) runs = (
    set_client e.cfg.server n reg,
    λ k. lookup-set_client e.cfg.server n k reg,
    called req e n (set_client e.cfg.server n reg) reg w w' runs,
  )

  -- Where the action is known and its entry has no client that is alive, `Execute` tries one
  -- connection. If it fails, the response is an error and the registry is as before. If it succeeds,
  -- every entry of the server has the new client, and all other entries are as before; and unless
  -- the conversion of the arguments panics, there is one call of the tool, through the new client,
  -- whose answer is returned. No context argument is sent, and each argument that no step treats by
  -- its name is sent as the schema converts it.
  pub execute-Renewed :
      (req : Request) (reg : Registry) (e : Entry) (w : W)
      → lookup req.action reg.actions ≡ some e
      → has_live e.client w ≡ false
      → Renewed req e reg w (host.upstream.connect e.cfg w).0 (host.upstream.connect e.cfg w).1
  unfolding reconnect
  execute-Renewed req reg e w known dead =
      after_reconnect-Renewed req e reg w (host.upstream.connect e.cfg w).1
        (host.upstream.connect e.cfg w).0
        (execute_known host req reg e e.client w known refl
          ∙ execute_client_dead req e e.client reg w dead)
