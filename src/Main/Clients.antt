-- ===== src/Main/Clients.antt =====
-- The clients of the process: main.go over plugin/ and mcp/.
use mcp_plugin.Base.Tests.{◌≡◌, inl, inr, List, [], ◌∷◌, Result, ok, err, Bool-cases}
use mathlib.Core.Path.{subst}
use mcp_plugin.Base.Text.{Text, codes, ◌==◌}
use mcp_plugin.Config.Expand.{ServerConfig}
use mcp_plugin.Config.Parse.{load, cache_dir}
use mcp_plugin.Mcp.Types.Tools.{Tool}
use mcp_plugin.Mcp.Client.Transport.{Wire}
use mcp_plugin.Plugin.Args.Value.{Decoders}
use mcp_plugin.Plugin.Upstream.{Disk, Host}
use mcp_plugin.Plugin.Clients.{Objects}
use mcp_plugin.Plugin.Clients.Connected.{IsReady, live_host, clients_contract}
use mcp_plugin.Plugin.Registry.Build.Owned.{build-HasClients}
use mcp_plugin.Plugin.Handler.Execute.Owned.{IsOwned}
use mcp_plugin.Plugin.Handler.Refresh.{Handler, set_registry}
use mcp_plugin.Plugin.Handler.Calls.{Call, answer_all}
use mcp_plugin.Plugin.Handler.Calls.Owned.{answer_all-IsOwned}
use mcp_plugin.Main.{bootstrap_with, bootstrap}

module _ {W : Type 0} (wire : Wire W) (disk : Disk W) (decoders : Decoders)
    (encode : Text → List Tool → Result Text) (quote getenv : Text → Text) where
  abbrev process_host : Host (Objects W)
  process_host = live_host wire disk decoders encode quote

  abbrev dir : Text
  dir = cache_dir process_host.shape getenv

  -- Every client of the handler's registry is an object that has a transport.
  abbrev pub HasReadyClients : Handler → Objects W → Type 0
  HasReadyClients h o =
      IsOwned process_host IsReady (clients_contract wire disk decoders encode quote) h.registry o

  abbrev IsStarted : Result Handler × Objects W → Type 0
  IsStarted (ok h, o) = HasReadyClients h o
  IsStarted (err e, o) = Unit

  bootstrap_with-IsStarted :
      (loaded : Result (List ServerConfig)) (o : Objects W)
      → IsStarted (bootstrap_with process_host getenv loaded o)
  unfolding bootstrap_with set_registry
  bootstrap_with-IsStarted (err e) o = tt
  bootstrap_with-IsStarted (ok []) o = tt
  bootstrap_with-IsStarted (ok (cfg ∷ cfgs)) o =
      build-HasClients process_host IsReady (clients_contract wire disk decoders encode quote) dir
        (cfg ∷ cfgs) o

  bootstrap-IsStarted : (o : Objects W) → IsStarted (bootstrap process_host getenv o)
  unfolding bootstrap
  bootstrap-IsStarted o = elim (Bool-cases (getenv (codes "OPENTALON_MCP_SERVERS") == [])) [
    | inl unset ↦ rw unset tt
    | inr set ↦ rw set (bootstrap_with-IsStarted (load process_host.shape getenv) o)
  ]

  -- Whatever the servers answer, and whatever calls the host makes of the handler that `main` serves,
  -- one after another, every client in the handler's registry is an object that has a transport: no
  -- call of the registry's clients meets a nil transport.
  pub served-HasReadyClients :
      (calls : List Call) (h : Handler) (o o' : Objects W)
      → bootstrap process_host getenv o ≡ (ok h, o')
      → let (h', after) = answer_all process_host getenv dir calls (h, o') in
        HasReadyClients h' after
  served-HasReadyClients calls h o o' e =
      answer_all-IsOwned process_host IsReady (clients_contract wire disk decoders encode quote) dir
        getenv calls h o' (subst IsStarted e (bootstrap-IsStarted o))
