-- ===== src/Mcp/Types/Tools.antt =====
-- mcp/types.go: tools, their schemas and annotations, and the result of tools/list.
use mathlib.Core.Option.{get_or}
use mcp_plugin.Base.Tests.{Bool, Option, none, some, List, [], if◌then◌else◌, ◌>>=◌}
use mcp_plugin.Base.Text.{Text, codes}
use mcp_plugin.Base.Dict.{Dict}
use mcp_plugin.Json.Decode.{
  Scanner, null, is_field, decode_string, decode_flag, decode_list, decode_map, decode_struct,
}
use mcp_plugin.Mcp.Types.Property.{SchemaProp, unmarshal}

-- `InputSchema`
pub record InputSchema : Type 0 where
  pub type : Text
  pub properties : Dict SchemaProp
  pub required : List Text

-- `ToolAnnotation`: the hints are `*bool`
pub record ToolAnnotation : Type 0 where
  pub title : Text
  pub read_only_hint : Option Bool
  pub destructive_hint : Option Bool
  pub idempotent_hint : Option Bool
  pub open_world_hint : Option Bool

-- `Tool`; `output_schema` and `meta` are raw JSON, empty when absent.
pub record Tool : Type 0 where
  pub name : Text
  pub description : Text
  pub input_schema : InputSchema
  pub output_schema : Text
  pub annotations : Option ToolAnnotation
  pub meta : Text

abbrev pub no_schema : InputSchema
no_schema = record { type = []; properties = []; required = [] }

abbrev pub no_annotation : ToolAnnotation
no_annotation = record {
  title = [];
  read_only_hint = none;
  destructive_hint = none;
  idempotent_hint = none;
  open_world_hint = none;
}

abbrev pub no_tool : Tool
no_tool = record {
  name = [];
  description = [];
  input_schema = no_schema;
  output_schema = [];
  annotations = none;
  meta = [];
}

module _ (shape : Scanner) where
  unfoldable pub set_schema_field : Text → Text → InputSchema → Option InputSchema
  set_schema_field key raw s =
      if is_field key (codes "type")
      then (do x ← decode_string shape s.type raw; some (record s { type = x }))
      else if is_field key (codes "properties")
      then (do
        x ← decode_map shape (unmarshal shape) s.properties raw
        some (record s { properties = x }))
      else if is_field key (codes "required")
      then (do x ← decode_list shape (decode_string shape []) raw; some (record s { required = x }))
      else some s

  unfoldable pub set_annotation_field : Text → Text → ToolAnnotation → Option ToolAnnotation
  set_annotation_field key raw a =
      if is_field key (codes "title")
      then (do x ← decode_string shape a.title raw; some (record a { title = x }))
      else if is_field key (codes "readOnlyHint")
      then (do x ← decode_flag shape raw; some (record a { read_only_hint = x }))
      else if is_field key (codes "destructiveHint")
      then (do x ← decode_flag shape raw; some (record a { destructive_hint = x }))
      else if is_field key (codes "idempotentHint")
      then (do x ← decode_flag shape raw; some (record a { idempotent_hint = x }))
      else if is_field key (codes "openWorldHint")
      then (do x ← decode_flag shape raw; some (record a { open_world_hint = x }))
      else some a

  -- `*ToolAnnotation`: a null makes the pointer nil; an object is decoded into what it points to.
  unfoldable pub decode_annotations : Option ToolAnnotation → Text → Option (Option ToolAnnotation)
  decode_annotations old raw = elim (shape raw) [
    | none ↦ none
    | some v ↦ elim v [
      | null ↦ some none
      | _ ↦ (do
        a ← decode_struct shape set_annotation_field (get_or old no_annotation) raw
        some (some a))
    ]
  ]

  unfoldable pub set_tool_field : Text → Text → Tool → Option Tool
  set_tool_field key raw t =
      if is_field key (codes "name")
      then (do x ← decode_string shape t.name raw; some (record t { name = x }))
      else if is_field key (codes "description")
      then (do x ← decode_string shape t.description raw; some (record t { description = x }))
      else if is_field key (codes "inputSchema")
      then (do
        x ← decode_struct shape set_schema_field t.input_schema raw
        some (record t { input_schema = x }))
      else if is_field key (codes "outputSchema")
      then some (record t { output_schema = raw })
      else if is_field key (codes "annotations")
      then (do x ← decode_annotations t.annotations raw; some (record t { annotations = x }))
      else if is_field key (codes "_meta")
      then some (record t { meta = raw })
      else some t

  -- `toolsListResult`
  unfoldable pub set_tools_field : Text → Text → List Tool → Option (List Tool)
  set_tools_field key raw ts =
      if is_field key (codes "tools")
      then decode_list shape (decode_struct shape set_tool_field no_tool) raw
      else some ts

  unfoldable pub decode_tools : Text → Option (List Tool)
  decode_tools = decode_struct shape set_tools_field []
