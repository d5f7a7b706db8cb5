-- ===== src/Main.antt =====
-- main.go: the process. What the host library, the network and the standard output do are operations
-- of `Outside`.
pub mod Bootstrap
pub mod Clients
use mcp_plugin.Base.Tests.{
  ℕ, Option, none, some, List, [], ◌∷◌, ◌++◌, if◌then◌else◌, Result, ok, err,
}
use mcp_plugin.Base.Text.{Text, codes, ◌==◌}
use mcp_plugin.Config.Expand.{ServerConfig}
use mcp_plugin.Config.Parse.{load, cache_dir}
use mcp_plugin.Plugin.Upstream.{Host}
use mcp_plugin.Plugin.Registry.Build.{build}
use mcp_plugin.Plugin.Handler.Refresh.{Handler, new_handler, set_registry}

-- A failure is its message; `serve` runs until the host is done with the handler.
pub record Outside (W : Type 0) : Type 0 where
  -- `net.Listen` of "tcp" on an address
  pub listen : Text → W → Result ℕ × W
  -- `Handshake.String` of a network and an address
  pub handshake : Text → Text → Text
  pub print_line : Text → W → Option Text × W
  -- `ServeListener` and `Serve`
  pub serve_listener : ℕ → Handler → W → Option Text × W
  pub serve : Handler → W → Option Text × W

-- How the process ends: `log.Fatalf` with its message, or the end of `main`.
pub data Exit : Type 0 where
  fatal : Text → Exit
  done : Exit

module _ {W : Type 0} (host : Host W) (getenv : Text → Text) where
  -- The registry of the configuration that was loaded.
  unfoldable pub bootstrap_with : Result (List ServerConfig) → W → Result Handler × W
  bootstrap_with (err e) w = (err (codes "mcp-plugin: load config: " ++ e), w)
  bootstrap_with (ok []) w =
      (err (codes "mcp-plugin: no MCP server configs found in OPENTALON_MCP_SERVERS"), w)
  bootstrap_with (ok (cfg ∷ cfgs)) w =
      let (registry, w') = build host (cache_dir host.shape getenv) (cfg ∷ cfgs) w in
      (ok (set_registry registry (cfg ∷ cfgs) new_handler), w')

  -- `main` up to the choice of the mode: the handler that is served, or the message of `Fatalf`.
  unfoldable pub bootstrap : W → Result Handler × W
  bootstrap w =
      let loaded = bootstrap_with (load host.shape getenv) w in
      if getenv (codes "OPENTALON_MCP_SERVERS") == [] then (ok new_handler, w) else loaded

  module _ (outside : Outside W) where
    -- The message of the last `Fatalf` of a mode, if serving fails.
    unfoldable pub served : Option Text × W → Exit × W
    served (none, w) = (done, w)
    served (some e, w) = (fatal (codes "mcp-plugin: serve: " ++ e), w)

    unfoldable pub announced : Handler → ℕ → Option Text × W → Exit × W
    announced h ln (some e, w) = (fatal (codes "mcp-plugin: write handshake: " ++ e), w)
    announced h ln (none, w) = served (outside.serve_listener ln h w)

    unfoldable pub listening : Handler → Text → Result ℕ × W → Exit × W
    listening h port (err e, w) =
        (fatal (codes "mcp-plugin: listen tcp :" ++ (port ++ (codes ": " ++ e))), w)
    listening h port (ok ln, w) =
        announced h ln
          (outside.print_line (outside.handshake (codes "tcp") (codes "0.0.0.0:" ++ port)) w)

    -- TCP with a port, else the default mode.
    unfoldable pub serve_on : Text → Handler → W → Exit × W
    serve_on [] h w = served (outside.serve h w)
    serve_on (c ∷ port) h w = listening h (c ∷ port) (outside.listen (codes ":" ++ c ∷ port) w)

    unfoldable pub serve_bootstrapped : Result Handler × W → Exit × W
    serve_bootstrapped (err e, w) = (fatal e, w)
    serve_bootstrapped (ok h, w) = serve_on (getenv (codes "MCP_GRPC_PORT")) h w

    -- `main`
    unfoldable pub main : W → Exit × W
    main w = serve_bootstrapped (bootstrap w)
