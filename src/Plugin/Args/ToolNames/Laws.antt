-- ===== src/Plugin/Args/ToolNames/Laws.antt =====
-- What `resolveToolNameArgs` changes, and which spellings of a tool name it resolves.
use mathlib.Core.Option
use mcp_plugin.Base.Tests.{
  ◌+◌, ◌≡◌, refl, ap, inl, inr, ◌||◌, none, some, ◌++◌, arith, if◌then◌else◌, ◌∙◌, append_assoc,
  length, length-append, Option-cases,
}
use mcp_plugin.Base.Text.{Text, codes, ◌==◌, eq_iff, index, slice_from}
use mcp_plugin.Base.Dict.{Dict, lookup, lookup-insert}
use mcp_plugin.Base.Text.Index.{index-append, slice_from-append}
use mcp_plugin.Plugin.Types.{Entry, separator}
use mcp_plugin.Plugin.Args.Value.{Value}
use mcp_plugin.Plugin.Args.ToolNames.{
  tool_of, tool_of_rest, resolve, resolve_value, resolve_key, resolve_tasks, resolve_in_tasks,
  resolve_tool_name_args,
}

module _ (actions : Dict Entry) where
  lookup-resolve_key :
      (key k : Text) (args : Dict Value)
      → lookup k (resolve_key actions key args)
        ≡ (if key == k then Option.map (resolve_value actions) (lookup k args) else lookup k args)
  unfolding resolve_key
  lookup-resolve_key key k args = elim (Option-cases (lookup key args)) [
    | inl missing ↦ ground (arith, eq_iff key k)
    | inr (w, found) ↦
        ground (arith, lookup-insert key k (resolve_value actions w) args, eq_iff key k)
  ]

  lookup-resolve_in_tasks :
      (k : Text) (args : Dict Value)
      → lookup k (resolve_in_tasks actions args) ≡ (
          if codes "tasks" == k
          then Option.map (resolve_tasks actions) (lookup k args)
          else lookup k args)
  unfolding resolve_in_tasks
  lookup-resolve_in_tasks k args = elim (Option-cases (lookup (codes "tasks") args)) [
    | inl missing ↦ ground (arith, eq_iff (codes "tasks") k)
    | inr (w, found) ↦ ground (
      arith,
      lookup-insert (codes "tasks") k (resolve_tasks actions w) args,
      eq_iff (codes "tasks") k,
    )
  ]

  -- The value that the argument `k` has afterwards.
  abbrev pub resolved : Text → Value → Value
  resolved k w =
      if codes "default_tool_name" == k || codes "tool_name" == k
      then resolve_value actions w
      else if codes "tasks" == k
      then resolve_tasks actions w
      else w

  -- `resolveToolNameArgs` resolves "default_tool_name" and "tool_name", resolves within "tasks", and
  -- leaves every other argument as it is; it adds and removes none.
  pub lookup-resolve_tool_name_args :
      (k : Text) (args : Dict Value)
      → lookup k (resolve_tool_name_args actions args) ≡ Option.map (resolved k) (lookup k args)
  unfolding resolve_tool_name_args
  lookup-resolve_tool_name_args k args =
      simp (lookup-resolve_in_tasks, lookup-resolve_key)
        (ground (
          arith,
          eq_iff (codes "default_tool_name") k,
          eq_iff (codes "tool_name") k,
          eq_iff (codes "tasks") k,
        ))

  -- An action key is resolved to the tool's own name.
  tool_of_key :
      (key : Text) (e : Entry)
      → lookup key actions ≡ some e
      → tool_of actions key ≡ some e.mcp_tool_name
  unfolding tool_of
  tool_of_key key e h = rw h

  no_tool_of_key : (key : Text) → lookup key actions ≡ none → tool_of actions key ≡ none
  unfolding tool_of
  no_tool_of_key key h = rw h

  -- The slice after the segment and its separator.
  tail_of :
      (segment key : Text)
      → slice_from (segment ++ (separator ++ key)) (length segment + 2) ≡ some key
  tail_of segment key = rw (← append_assoc segment separator key) (
      ap (slice_from ((segment ++ separator) ++ key))
        (omega (arith, length-append segment separator))
      ∙ slice_from-append (segment ++ separator) key)

  tool_of_rest-segment :
      (segment key : Text)
      → index (segment ++ separator) separator ≡ some (length segment)
      → tool_of_rest actions (segment ++ (separator ++ key)) ≡ tool_of actions key
  unfolding tool_of_rest
  tool_of_rest-segment segment key h =
      rw (index-append segment separator key h, tool_of_rest) (rw (tail_of segment key) refl)

  -- Every spelling of a registered tool is resolved to the server's name for it: the action key, and
  -- the key behind a leading "<segment>__", if that whole is not itself an action key and the
  -- segment does not reach into the separator.
  pub resolve-spellings :
      (segment key : Text) (e : Entry)
      → lookup key actions ≡ some e
      → index (segment ++ separator) separator ≡ some (length segment)
      → lookup (segment ++ (separator ++ key)) actions ≡ none
      → (resolve actions key ≡ some e.mcp_tool_name)
        × (resolve actions (segment ++ (separator ++ key)) ≡ some e.mcp_tool_name)
  unfolding resolve
  resolve-spellings segment key e known first fresh = (
    rw (tool_of_key key e known, resolve),
    rw (no_tool_of_key (segment ++ (separator ++ key)) fresh, resolve)
        (tool_of_rest-segment segment key first ∙ tool_of_key key e known),
  )
