-- ===== src/Plugin/Handler/Execute/Owned.antt =====
-- What holds of a client that was connected, holds of every client of the registry that `Execute`
-- leaves.
use mathlib.Core.Path.{subst}
use mcp_plugin.Base.Tests.{
  ℕ, ◌≡◌, refl, ap, ◌∙◌, inl, inr, Option, none, some, Result, ok, err, Bool-cases, Option-cases,
}
use mcp_plugin.Base.Text.{Text, ◌==◌}
use mcp_plugin.Base.Dict.{lookup}
use mcp_plugin.Config.Expand.{ServerConfig}
use mcp_plugin.Plugin.Types.{Entry, Registry}
use mcp_plugin.Plugin.Upstream.{Host}
use mcp_plugin.Plugin.Registry.Fetch.Owned.{Contract, Kept}
use mcp_plugin.Plugin.Registry.Build.Owned.{HasClients}
use mcp_plugin.Plugin.Registry.Live.{reconnected, reconnect}
use mcp_plugin.Plugin.Registry.Live.Reconnect.{before, renewed}
use mcp_plugin.Plugin.Handler.Execute.{
  Request, Outcome, answered, call_with, forward_and_call, converted, call_live, after_reconnect,
  execute_client, execute,
}

module _ {W : Type 0} (host : Host W) (P : ℕ → W → Type 0) (c : Contract host P) where
  -- Every client of the handler's registry has the property.
  abbrev pub IsOwned : Option Registry → W → Type 0
  IsOwned none w = Unit
  IsOwned (some r) w = HasClients host P c r w

  pub later-IsOwned :
      (r : Option Registry) (w w' : W) → Kept host P c w w' → IsOwned r w → IsOwned r w'
  later-IsOwned none w w' kept owned = tt
  later-IsOwned (some r) w w' kept owned = λ k e n found has. kept n (owned k e n found has)

  renewed_client :
      (server : Text) (client : ℕ) (old : Entry) (n : ℕ) (w : W)
      → P client w
      → (old.client ≡ some n → P n w)
      → (renewed server client old).client ≡ some n
      → P n w
  renewed_client server client old n w new was = elim (Bool-cases (old.cfg.server == server)) [
    | inl same ↦ rw same (λ e. subst (λ x. P x w) (cc e) new)
    | inr other ↦ rw other was
  ]

  reconnected-IsOwned :
      (cfg : ServerConfig) (res : Result ℕ) (r : Registry) (w w' : W)
      → Kept host P c w w'
      → ((n : ℕ) → res ≡ ok n → P n w')
      → IsOwned (some r) w
      → let (res', r', w'') = reconnected host cfg res w' r in IsOwned (some r') w''
  unfolding reconnected
  reconnected-IsOwned cfg (err e) r w w' kept new owned = later-IsOwned (some r) w w' kept owned
  reconnected-IsOwned cfg (ok client) r w w' kept new owned = λ k e n found has.
      let (old, was, is) = before cfg.server client k r e found in
      renewed_client cfg.server client old n w' (new client refl)
        (λ held. kept n (owned k old n was held)) (ap (λ (x : Entry). x.client) is ∙ has)

  reconnect-IsOwned :
      (cfg : ServerConfig) (r : Registry) (w : W)
      → IsOwned (some r) w
      → let (res, r', w') = reconnect host cfg r w in IsOwned (some r') w'
  unfolding reconnect
  reconnect-IsOwned cfg r w owned =
      reconnected-IsOwned cfg (host.upstream.connect cfg w).0 r w (host.upstream.connect cfg w).1
        (λ m has. c.connect cfg m w has) (λ n e. c.connects cfg n w e) owned

  -- The registry and the rest that a call leaves.
  abbrev pub IsLeft : Outcome W → Type 0
  IsLeft (response, registry, w) = IsOwned registry w

  answered-IsLeft :
      (id : Text) (reg : Registry) (r : Result (Text × Text)) (w : W)
      → IsOwned (some reg) w
      → IsLeft (answered host id reg (r, w))
  unfolding answered
  answered-IsLeft id reg (ok (text, structured)) w owned = owned
  answered-IsLeft id reg (err e) w owned = owned

  call_live-IsLeft :
      (req : Request) (e : Entry) (client : ℕ) (reg : Registry) (w : W)
      → IsOwned (some reg) w
      → IsLeft (call_live host req e client reg w)
  unfolding call_live forward_and_call call_with
  call_live-IsLeft req e client reg w owned = elim (Option-cases (converted host req e reg)) [
    | inl panics ↦ rw (panics, call_live) owned
    | inr (args, is) ↦
        rw (is, call_live)
          (answered-IsLeft req.id reg _ _ (
            later-IsOwned (some reg) w _ (λ m has. c.call_tool client m e.mcp_tool_name _ _ w has)
              owned))
  ]

  after_reconnect-IsLeft :
      (req : Request) (e : Entry) (res : Result ℕ) (reg : Registry) (w : W)
      → IsOwned (some reg) w
      → IsLeft (after_reconnect host req e (res, reg, w))
  unfolding after_reconnect
  after_reconnect-IsLeft req e (err msg) reg w owned = owned
  after_reconnect-IsLeft req e (ok client) reg w owned = call_live-IsLeft req e client reg w owned

  reconnecting-IsLeft :
      (req : Request) (e : Entry) (reg : Registry) (w : W)
      → IsOwned (some reg) w
      → IsLeft (after_reconnect host req e (reconnect host e.cfg reg w))
  reconnecting-IsLeft req e reg w owned =
      let (res, reg', w') = reconnect host e.cfg reg w in
      after_reconnect-IsLeft req e res reg' w' (reconnect-IsOwned e.cfg reg w owned)

  execute_client-IsLeft :
      (client : Option ℕ) (req : Request) (e : Entry) (reg : Registry) (w : W)
      → IsOwned (some reg) w
      → IsLeft (execute_client host client req e reg w)
  unfolding execute_client
  execute_client-IsLeft none req e reg w owned = reconnecting-IsLeft req e reg w owned
  execute_client-IsLeft (some client) req e reg w owned =
      elim (Bool-cases (host.upstream.is_alive client w)) [
        | inl alive ↦ rw alive (call_live-IsLeft req e client reg w owned)
        | inr dead ↦ rw dead (reconnecting-IsLeft req e reg w owned)
      ]

  pub execute-IsLeft :
      (req : Request) (registry : Option Registry) (w : W)
      → IsOwned registry w
      → IsLeft (execute host req registry w)
  unfolding execute
  execute-IsLeft req none w owned = tt
  execute-IsLeft req (some reg) w owned = elim (Option-cases (lookup req.action reg.actions)) [
    | inl unknown ↦ rw (unknown, execute) owned
    | inr (e, known) ↦ rw (known, execute) (execute_client-IsLeft e.client req e reg w owned)
  ]
