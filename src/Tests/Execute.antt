-- ===== src/Tests/Execute.antt =====
-- Runs of `execute` and of the handler's refresh.
use mcp_plugin.Plugin.Args.Coerce.{convert_args, convert, coerce, coerce_to}
use mcp_plugin.Plugin.Args.ToolNames.{resolve_tool_name_args, resolve_in_tasks, resolve_key}
use mcp_plugin.Plugin.Args.IncludeFields.{sanitize_include_fields}
use mcp_plugin.Plugin.Registry.Fetch.{fetch_tools, fetch_connected, list_or_fall_back}
use mcp_plugin.Base.Tests.{◌≡◌, refl, true, none, some, [], ◌∷◌, ok}
use mcp_plugin.Base.Text.{Text, codes, ◌==◌, to_lower}
use mcp_plugin.Base.Dict.{Dict, lookup, insert}
use mcp_plugin.Plugin.Types.{Registry}
use mcp_plugin.Plugin.Args.Value.{Value, str}
use mcp_plugin.Plugin.Registry.Build.{
  build, finish, add_servers, add_server, add_fetched, add_live, add_tools, add_tool, add_texts,
  action_of,
}
use mcp_plugin.Plugin.Registry.Build.Consistent.{IsConsistent, announces, build-IsConsistent}
use mcp_plugin.Plugin.Handler.Execute.{Request, error, answered, converted, execute}
use mcp_plugin.Plugin.Handler.Execute.Laws.{Sends, execute_alive, execute_unannounced}
use mcp_plugin.Plugin.Handler.Execute.Renewed.{Renewed, execute-Renewed}
use mcp_plugin.Tests.World.{crm, add_entry, host, upstream}

abbrev request : Request
request = record {
  id = codes "1";
  action = codes "crm__add";
  args = (codes "user", codes "ann") ∷ (codes "note", codes "hi") ∷ [];
  credential_headers = [];
}

abbrev live : Registry
live = (build host [] (crm ∷ []) true).0

abbrev given : Dict Value
given = (codes "user", str (codes "ann")) ∷ (codes "note", str (codes "hi")) ∷ []

execute_alive_example :
    (sent : Dict Value) × (headers : Dict Text) × (execute host request (some live) true
      ≡ answered host (codes "1") live (upstream.call_tool 7 (codes "add") sent headers true))
    × Sends host request (add_entry (some 7)) sent
unfolding lookup build finish add_servers add_server add_fetched fetch_tools fetch_connected
    list_or_fall_back add_live add_tools add_tool insert add_texts ◌==◌ converted
    sanitize_include_fields resolve_tool_name_args resolve_in_tasks resolve_key convert_args convert
    coerce coerce_to to_lower
execute_alive_example =
    execute_alive host request live (add_entry (some 7)) 7 given true refl refl refl refl

build-IsConsistent_example : IsConsistent (build host [] (crm ∷ []) true).0
build-IsConsistent_example = build-IsConsistent host [] (crm ∷ []) true

abbrev stranger : Request
stranger = record request { action = codes "crm__drop" }

execute_unannounced_example :
    execute host stranger (some live) true
    ≡ (error (codes "1") (codes "unknown action crm__drop"), some live, true)
unfolding announces build finish add_servers add_server add_fetched fetch_tools fetch_connected
    list_or_fall_back add_live add_tools add_tool add_texts ◌==◌ action_of
execute_unannounced_example =
    execute_unannounced host stranger live true (build-IsConsistent host [] (crm ∷ []) true) refl

abbrev dead : Registry
dead = record live { actions = (codes "crm__add", add_entry none) ∷ [] }

execute-Renewed_example : Renewed host request (add_entry none) dead true (ok 7) true
unfolding lookup ◌==◌
execute-Renewed_example = execute-Renewed host request dead (add_entry none) true refl refl
