-- ===== src/Plugin/Args/ToolNames.antt =====
-- plugin/handler.go: `resolveToolNameArgs`. The values of an argument map are changed in place
-- there; here the new map is returned.
pub mod Laws
use mcp_plugin.Base.Tests.{ℕ, ◌+◌, Option, none, some, List, [], ◌∷◌, map, if◌then◌else◌, ◌>>=◌}
use mcp_plugin.Base.Text.{Text, codes, index, slice_from}
use mcp_plugin.Base.Dict.{Dict, lookup, insert}
use mcp_plugin.Plugin.Types.{Entry, separator}
use mcp_plugin.Plugin.Args.Value.{
  Value, null, str, float, int, bool, arr, obj, elems, of_elems, members, of_members,
}

module _ (actions : Dict Entry) where
  unfoldable pub tool_of : Text → Option Text
  tool_of key = do e ← lookup key actions; some e.mcp_tool_name

  -- The second attempt of `resolve`: the key without its leading segment.
  unfoldable pub tool_of_rest : Text → Option Text
  tool_of_rest v = do i ← index v separator; rest ← slice_from v (i + 2); tool_of rest

  -- `resolve`
  unfoldable pub resolve : Text → Option Text
  resolve v = elim (tool_of v) [ none ↦ tool_of_rest v | some raw ↦ some raw ]

  -- What a string argument becomes.
  unfoldable pub resolve_value : Value → Value
  resolve_value (str v) = elim (resolve v) [ none ↦ str v | some raw ↦ str raw ]
  resolve_value w = w

  -- A write of a value that is there, which a Go map does in place.
  unfoldable pub resolve_key : Text → Dict Value → Dict Value
  resolve_key key args = elim (lookup key args) [
    | none ↦ args
    | some w ↦ insert key (resolve_value w) args
  ]

  unfoldable pub resolve_task : Value → Value
  resolve_task (obj task) = obj (of_members (resolve_key (codes "tool_name") (members task)))
  resolve_task w = w

  unfoldable pub resolve_tasks : Value → Value
  resolve_tasks (arr ts) = arr (of_elems (map resolve_task (elems ts)))
  resolve_tasks w = w

  unfoldable pub resolve_in_tasks : Dict Value → Dict Value
  resolve_in_tasks args = elim (lookup (codes "tasks") args) [
    | none ↦ args
    | some w ↦ insert (codes "tasks") (resolve_tasks w) args
  ]

  -- `resolveToolNameArgs`
  unfoldable pub resolve_tool_name_args : Dict Value → Dict Value
  resolve_tool_name_args args =
      resolve_in_tasks
        (resolve_key (codes "tool_name") (resolve_key (codes "default_tool_name") args))
