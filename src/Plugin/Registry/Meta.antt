-- ===== src/Plugin/Registry/Meta.antt =====
-- plugin/registry.go: what `Build` reads out of a tool: `readOnlyFromAnnotations`,
-- `alwaysIncludeFromMeta`, `confirmationHintFromMeta`, `companionsFromMeta` and `schemaToParams`.
pub mod Order
use mcp_plugin.Base.Tests.{
  Bool, true, false, ◌||◌, Option, none, some, List, [], ◌∷◌, ◌++◌, if◌then◌else◌, ◌>>=◌,
}
use mcp_plugin.Base.Text.{Text, codes, ◌==◌, Unicode, trim_space}
use mcp_plugin.Base.Dict.{Dict}
use mcp_plugin.Base.Sort.{sort_by}
use mcp_plugin.Json.Decode.{
  Scanner, is_field, decode_string, decode_bool, decode_list, decode_struct,
}
use mcp_plugin.Mcp.Types.Property.{SchemaProp}
use mcp_plugin.Mcp.Types.Tools.{InputSchema, ToolAnnotation}
use mcp_plugin.Plugin.Types.{ParameterMsg, separator}

-- `readOnlyFromAnnotations`
unfoldable pub read_only_from_annotations : Option ToolAnnotation → Bool
read_only_from_annotations none = false
read_only_from_annotations (some ann) = elim ann.read_only_hint [ none ↦ false | some hint ↦ hint ]

-- The "<server>__<tool>" name that `Build` and the companions share.
abbrev pub action_name : Text → Text → Text
action_name server tool = server ++ (separator ++ tool)

-- The loop of `companionsFromMeta`; an empty name gives up.
unfoldable pub bridge_names : Text → List Text → Option (List Text)
bridge_names server [] = some []
bridge_names server (name ∷ names) =
    if name == []
    then none
    else (do rest ← bridge_names server names; some (action_name server name ∷ rest))

module _ (shape : Scanner) where
  unfoldable pub set_always : Text → Text → Bool → Option Bool
  set_always key raw old =
      if is_field key (codes "always_include") then decode_bool shape old raw else some old

  unfoldable pub set_hint : Text → Text → Text → Option Text
  set_hint key raw old =
      if is_field key (codes "confirmation_hint") then decode_string shape old raw else some old

  unfoldable pub set_companions : Text → Text → List Text → Option (List Text)
  set_companions key raw old =
      if is_field key (codes "companions")
      then decode_list shape (decode_string shape []) raw
      else some old

  -- `alwaysIncludeFromMeta`
  unfoldable pub always_include_from_meta : Text → Bool
  always_include_from_meta [] = false
  always_include_from_meta (c ∷ m) = elim (decode_struct shape set_always false (c ∷ m)) [
    | none ↦ false
    | some b ↦ b
  ]

  -- `confirmationHintFromMeta`
  unfoldable pub confirmation_hint_from_meta : Unicode → Text → Text
  confirmation_hint_from_meta u [] = []
  confirmation_hint_from_meta u (c ∷ m) = elim (decode_struct shape set_hint [] (c ∷ m)) [
    | none ↦ []
    | some hint ↦ trim_space u hint
  ]

  -- `companionsFromMeta`
  unfoldable pub companions_from_meta : Text → Text → List Text
  companions_from_meta server [] = []
  companions_from_meta server (c ∷ m) = elim (decode_struct shape set_companions [] (c ∷ m)) [
    | none ↦ []
    | some names ↦ elim (bridge_names server names) [ none ↦ [] | some bridged ↦ bridged ]
  ]

unfoldable pub contains : List Text → Text → Bool
contains [] s = false
contains (x ∷ xs) s = x == s || contains xs s

abbrev pub parameter : List Text → Text → SchemaProp → ParameterMsg
parameter required name prop = record {
  name = name;
  description = prop.description;
  schema = prop.raw;
  required = contains required name;
}

unfoldable pub parameters : List Text → Dict SchemaProp → List ParameterMsg
parameters required [] = []
parameters required ((name, prop) ∷ rest) = parameter required name prop ∷ parameters required rest

abbrev pub parameter_name : ParameterMsg → Text
parameter_name p = p.name

-- `schemaToParams`
unfoldable pub schema_to_params : InputSchema → List ParameterMsg
schema_to_params schema = sort_by parameter_name (parameters schema.required schema.properties)

-- The context arguments that each action of a server declares, in `Build`.
abbrev keys : Dict Text → List Text
keys [] = []
keys ((k, v) ∷ rest) = k ∷ keys rest

unfoldable pub inject_context_args : Dict Text → List Text
inject_context_args context_headers = sort_by (λ k. k) (keys context_headers)
