-- ===== src/Tests/Clients.antt =====
-- Runs of the process over a wire that always answers.
use mcp_plugin.Config.Expand.{expand_headers}
use mcp_plugin.Plugin.Registry.Fetch.{fetch_tools, fetch_connected, list_or_fall_back}
use mcp_plugin.Base.Tests.{
  if◌then◌else◌, ℕ, ◌≡◌, refl, ap, ◌∙◌, true, false, nat_eq, ◌||◌, arith, none, some, List, [], ◌∷◌,
  Result, ok, err,
}
use mcp_plugin.Base.Text.{Text, codes, ◌==◌, has_prefix, lower_byte}
use mcp_plugin.Json.Decode.{
  decode_struct, set_fields, is_field, fold_from, decode_list, decode_each, decode_string,
}
use mcp_plugin.Mcp.Types.Payloads.{decode_init}
use mcp_plugin.Mcp.Client.Calls
use mcp_plugin.Base.Arena.{fetch, store}
use mcp_plugin.Base.Dict.{lookup, insert}
use mcp_plugin.Plugin.Types.{Entry, Registry}
use mcp_plugin.Plugin.Upstream.{Disk}
use mcp_plugin.Mcp.Types.Tools.{Tool, no_tool, decode_tools, set_tools_field, set_tool_field}
use mcp_plugin.Mcp.Client.Transport.{
  streamable, Wire, Client, Call, tools_list, new_client, next_id,
}
use mcp_plugin.Mcp.Client.Connect
use mcp_plugin.Mcp.Client.Connect.{
  connect, first_tried, try_streamable, shake, send_initialize, close_failed, finish_initialize,
  keep_init, decode_init_result,
}
use mcp_plugin.Plugin.Registry.Build.{
  build, finish, add_servers, add_server, add_fetched, add_live, add_tools, add_tool, add_texts,
}
use mcp_plugin.Plugin.Clients
use mcp_plugin.Plugin.Clients.{Objects, host}
use mcp_plugin.Config.Parse.{no_server, load, decode_servers, set_server_field, cache_dir}
use mcp_plugin.Plugin.Upstream.{Host}
use mcp_plugin.Plugin.Handler.Execute.{Request}
use mcp_plugin.Plugin.Handler.Refresh.{Handler, set_registry, new_handler}
use mcp_plugin.Plugin.Handler.Calls.{execute, refresh_capabilities, answer_all}
use mcp_plugin.Main.{bootstrap, bootstrap_with}
use mcp_plugin.Main.Clients.{HasReadyClients, served-HasReadyClients}
use mathlib.Core.Path.{subst}
use mcp_plugin.Plugin.Types.{default_caps}
use mcp_plugin.Plugin.Clients.Connected.{IsReady, clients_contract}
use mcp_plugin.Plugin.Registry.Live.{seen, to_close}
use mcp_plugin.Plugin.Registry.Live.Closing.{holds}
use mcp_plugin.Plugin.Handler.Refresh.{fully_live, is_nil, degraded, closed_by, refresh_commit}
use mcp_plugin.Plugin.Handler.Refresh.Sparing.{refresh_spares_clients}
use mcp_plugin.Tests.World.{decoders}
use mcp_plugin.Tests.Cache.{scanner}

abbrev result_of : Call → Text
result_of tools_list = codes "file"
result_of _ = codes "nothing"

-- A wire on which every request is answered, over no state at all.
abbrev plain : Wire Unit
plain = record {
  open_streamable = λ cfg w. (0, w);
  open_sse = λ cfg w. (err (codes "refused"), w);
  round_trip = λ tp req t h w. (ok (record { failed = none; result = result_of req.call }), w);
  notify = λ tp req w. w;
  close = λ tp w. w;
  is_done = λ tp w. false;
  shape = scanner;
}

abbrev disk : Disk Unit
disk = record {
  read_file = λ dir name w. none;
  write_file = λ dir name text w. (some (codes "read-only"), w);
  mkdir_all = λ dir w. (some (codes "read-only"), w);
}

abbrev start : Objects Unit
start = record { clients = []; rest = tt }

abbrev encode : Text → List Tool → Result Text
encode server tools = err (codes "unused")

abbrev quote : Text → Text
quote s = s

abbrev plain_host : Host (Objects Unit)
plain_host = host plain disk decoders encode quote

abbrev getenv : Text → Text
getenv name = if name == codes "OPENTALON_MCP_SERVERS" then codes "list" else []

abbrev built : Registry × Objects Unit
built = build plain_host [] (no_server ∷ []) start

abbrev served_handler : Handler
served_handler = set_registry built.0 (no_server ∷ []) new_handler

served : bootstrap plain_host getenv start ≡ (ok served_handler, built.1)
unfolding bootstrap ◌==◌ bootstrap_with load decode_servers decode_list decode_each decode_struct
    set_fields set_server_field is_field fold_from has_prefix lower_byte expand_headers cache_dir
served = refl

abbrev request : Request
request = record { id = codes "1"; action = codes "__add"; args = []; credential_headers = [] }

served-HasReadyClients_example :
    let (h, after) =
      answer_all plain_host getenv []
        (execute request ∷ refresh_capabilities ∷ [])
        (served_handler, built.1) in
    HasReadyClients plain disk decoders encode quote getenv h after
unfolding cache_dir ◌==◌
served-HasReadyClients_example =
    served-HasReadyClients plain disk decoders encode quote getenv
      (execute request ∷ refresh_capabilities ∷ []) served_handler start built.1 served

abbrev entry : Entry
entry = record {
  client = some 0;
  mcp_tool_name = codes "add";
  schema = no_tool.input_schema;
  cfg = no_server;
}

abbrev ready_client : Client
ready_client = record (new_client no_server) { tp = some (streamable 0); id_counter = 1 }

connected_is :
    (Clients.connect plain no_server start)
    ≡ (ok 0, record { clients = ready_client ∷ []; rest = tt })
unfolding Clients.connect Clients.connected Connect.connect first_tried try_streamable shake
    send_initialize close_failed finish_initialize keep_init next_id decode_init_result decode_init
    decode_struct ◌==◌
connected_is = refl

abbrev tool : Tool
tool = record no_tool { name = codes "add" }

listed_is :
    Clients.list_tools plain 0 (record { clients = ready_client ∷ []; rest = tt })
    ≡ (ok (tool ∷ []), record { clients = next_id ready_client ∷ []; rest = tt })
unfolding Clients.list_tools Clients.on_transport Clients.kept fetch store Calls.list_tools
    Calls.tools_of next_id decode_tools decode_struct set_fields set_tools_field decode_list
    decode_each set_tool_field decode_string is_field fold_from has_prefix lower_byte ◌==◌
listed_is = refl

fetched_is :
    fetch_tools (Clients.upstream plain) no_server start
    ≡ (ok (tool ∷ [], 0), record { clients = next_id ready_client ∷ []; rest = tt })
unfolding fetch_tools fetch_connected list_or_fall_back
fetched_is = rw (connected_is, fetch_tools, listed_is)

-- The registry of this run does have a client.
entry_found : lookup (codes "__add") built.0.actions ≡ some entry
unfolding lookup build finish add_servers add_server add_fetched add_live add_tools add_tool
    add_texts insert ◌==◌
entry_found = rw (fetched_is, build)

-- The state after that run, and a second build from it.
abbrev before : Objects Unit
before = record { clients = next_id ready_client ∷ []; rest = tt }

connected_again :
    Clients.connect plain no_server before
    ≡ (ok 1, record { clients = ready_client ∷ before.clients; rest = tt })
unfolding Clients.connect Clients.connected Connect.connect first_tried try_streamable shake
    send_initialize close_failed finish_initialize keep_init next_id decode_init_result decode_init
    decode_struct ◌==◌
connected_again = refl

listed_again :
    Clients.list_tools plain 1 (record { clients = ready_client ∷ before.clients; rest = tt })
    ≡ (ok (tool ∷ []), record { clients = next_id ready_client ∷ before.clients; rest = tt })
unfolding Clients.list_tools Clients.on_transport Clients.kept fetch store Calls.list_tools
    Calls.tools_of next_id decode_tools decode_struct set_fields set_tools_field decode_list
    decode_each set_tool_field decode_string is_field fold_from has_prefix lower_byte ◌==◌
listed_again = refl

fetched_again :
    fetch_tools (Clients.upstream plain) no_server before
    ≡ (ok (tool ∷ [], 1), record { clients = next_id ready_client ∷ before.clients; rest = tt })
unfolding fetch_tools fetch_connected list_or_fall_back
fetched_again = rw (connected_again, fetch_tools, listed_again)

abbrev old : Registry
old = record {
  actions = (codes "__add", entry) ∷ [];
  caps = default_caps;
  failed_servers = [];
  offline_servers = [];
}

abbrev configured : Handler
configured = set_registry old (no_server ∷ []) new_handler

abbrev rebuilt : Registry
rebuilt = (build plain_host [] (no_server ∷ []) before).0

rebuilt_live : fully_live rebuilt ≡ true
unfolding fully_live is_nil build finish add_servers add_server add_fetched add_live add_tools
    add_tool add_texts
rebuilt_live = rw (fetched_again, build)

old_there :
    (r : Registry) (x : ℕ)
    → configured.registry ≡ some r
    → holds x r.actions ≡ true
    → IsReady x before
unfolding holds set_registry fetch next_id
old_there r x same held =
    subst (λ n. IsReady n before) (only (cc same))
      (next_id ready_client, refl, (streamable 0, refl))
  where
    zero : (nat_eq x 0 || false) ≡ true → 0 ≡ x
    zero e = ground arith

    only : old ≡ r → 0 ≡ x
    only is = zero (ap (λ (q : Registry). holds x q.actions) is ∙ held)

closed_old : seen 0 (to_close [] old.actions) ≡ true
unfolding seen to_close
closed_old = refl

ended : closed_by rebuilt configured ≡ some old
unfolding closed_by degraded set_registry
ended = rw (rebuilt_live, closed_by)

left : (refresh_commit rebuilt configured).registry ≡ some rebuilt
unfolding refresh_commit
left = rw (rebuilt_live, refresh_commit)

refresh_spares_clients_example : seen 0 (to_close [] rebuilt.actions) ≡ false
refresh_spares_clients_example =
    refresh_spares_clients plain_host IsReady (clients_contract plain disk decoders encode quote) []
      (no_server ∷ []) configured before old rebuilt old_there ended left 0 closed_old
