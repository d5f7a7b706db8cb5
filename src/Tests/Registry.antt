-- ===== src/Tests/Registry.antt =====
-- Runs of the registry's own operations.
use mathlib.Core.Option
use mcp_plugin.Base.Tests.{
  ℕ, Bool, List, ◌≤◌, ◌<◌, ◌≡◌, refl, true, false, none, some, [], ◌∷◌, arith,
}
use mcp_plugin.Base.Text.{codes, ◌==◌, has_prefix, lower_byte}
use mcp_plugin.Base.Dict.{lookup, insert}
use mcp_plugin.Base.Sort.Laws.{swap}
use mcp_plugin.Plugin.Types.{Entry, ActionMsg, Registry}
use mcp_plugin.Plugin.Registry.Meta.{schema_to_params}
use mcp_plugin.Plugin.Registry.Meta.Order.{schema_to_params-Reorder}
use mcp_plugin.Plugin.Registry.Build.{
  build, finish, add_servers, add_server, add_fetched, add_unreachable, cached_tools, add_tools,
  add_tool,
}
use mcp_plugin.Plugin.Registry.Fetch.{
  fetch_tools, fetch_connected, load_cache, decode_cached, set_cached_field,
}
use mcp_plugin.Json.Decode.{
  decode_struct, set_fields, is_field, fold_from, decode_list, decode_each, decode_string,
}
use mcp_plugin.Mcp.Types.Tools.{set_tool_field}
use mcp_plugin.Plugin.Registry.Build.Consistent.{IsConsistent, build-IsConsistent}
use mcp_plugin.Plugin.Registry.Live.{strip_mark, offline_round, close, close_all, seen}
use mcp_plugin.Plugin.Registry.Live.Reconnect.{offline_round-IsConsistent}
use mcp_plugin.Plugin.Registry.Live.Prefix.{strip_mark_other}
use mcp_plugin.Plugin.Registry.Backoff.{
  offline_backoff, retry_backoff, max_offline_backoff, max_retry_backoff, offline_backoff_bounds,
  retry_backoff_passes_limit,
}
use mcp_plugin.Plugin.Registry.Live.Closing.{IsOnce, holds, close-IsOnce}
use mcp_plugin.Plugin.Upstream.{Host}
use mcp_plugin.Tests.World.{crm, add_entry, host, disk, note, count, add_schema}
use mcp_plugin.Tests.Cache.{scanner}

-- A host with a cached list of one tool.
abbrev caching : Host Bool
caching = record host {
  disk = record disk { read_file = λ dir name w. some (codes "file") };
  shape = scanner;
}

abbrev cached : Registry
cached = (build caching (codes "cache") (crm ∷ []) false).0

-- Its entry has no client while the server is down.
cached_offline :
    Option.map (λ (e : Entry). e.client) (lookup (codes "crm__add") cached.actions) ≡ some none
unfolding lookup build finish add_servers add_server add_fetched fetch_tools fetch_connected
    add_unreachable cached_tools load_cache add_tools add_tool insert ◌==◌ decode_cached
    decode_struct set_fields set_cached_field is_field fold_from has_prefix lower_byte decode_list
    decode_each set_tool_field decode_string
cached_offline = refl

offline_round-IsConsistent_example :
    IsConsistent (offline_round caching (codes "cache") (crm ∷ []) ([], cached, true)).1
offline_round-IsConsistent_example =
    offline_round-IsConsistent caching (codes "cache") (crm ∷ []) ([], cached, true)
      (build-IsConsistent caching (codes "cache") (crm ∷ []) false)

schema_to_params-Reorder_example :
    schema_to_params add_schema
    ≡ schema_to_params
        (record add_schema { properties = (codes "count", count) ∷ (codes "note", note) ∷ [] })
schema_to_params-Reorder_example =
    schema_to_params-Reorder add_schema ((codes "count", count) ∷ (codes "note", note) ∷ [])
      (swap (codes "note", note) (codes "count", count) [] (λ e. cc))

abbrev other_action : ActionMsg
other_action = record {
  name = codes "crm__eu__add";
  description = codes "[offline] Adds a note.";
  parameters = [];
  read_only = false;
  always_include = false;
  confirmation_hint = [];
  companions = [];
  inject_context_args = [];
}

strip_mark_other_example :
    (strip_mark (codes "crm") other_action).description ≡ codes "Adds a note."
strip_mark_other_example =
    strip_mark_other (codes "crm") (codes "eu") (codes "add") (codes "Adds a note.") other_action
      refl refl

offline_backoff_bounds_example :
    (5 ≤ offline_backoff 3)
    × (offline_backoff 3 ≤ offline_backoff 4)
    × (offline_backoff 3 ≤ max_offline_backoff)
offline_backoff_bounds_example = offline_backoff_bounds 3

retry_backoff_passes_limit_example : (retry_backoff 6 ≡ 32) × (max_retry_backoff < retry_backoff 6)
retry_backoff_passes_limit_example = retry_backoff_passes_limit 6 (omega arith)

abbrev shared : Registry
shared = record cached {
  actions = (codes "crm__add", add_entry (some 7)) ∷ (codes "crm__list", add_entry (some 7)) ∷ [];
}

close-IsOnce_example :
    (cs : List ℕ) × (close host shared true ≡ close_all host cs true)
    × IsOnce cs
    × ((x : ℕ) → seen x cs ≡ holds x shared.actions)
close-IsOnce_example = close-IsOnce host shared true
