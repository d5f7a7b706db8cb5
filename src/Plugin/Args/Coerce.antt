-- ===== src/Plugin/Args/Coerce.antt =====
-- plugin/handler.go: `coerce` and `convertArgs`.
pub mod Kinds
use mcp_plugin.Base.Tests.{
  ◌≡◌, ◌⊎◌, inl, inr, Bool, true, false, ◌&&◌, ◌||◌, Option, none, some, List, [], ◌∷◌, arith,
  if◌then◌else◌, Bool-cases, Option-cases,
}
use mcp_plugin.Base.Text.{Text, codes, ◌==◌, eq_iff, to_lower}
use mcp_plugin.Base.Dict.{Dict, lookup}
use mcp_plugin.Base.Int.{ℤ, InInt64, parse_int, parse_int-InInt64}
use mcp_plugin.Mcp.Types.Property.{SchemaProp}
use mcp_plugin.Plugin.Args.Value.{
  Value, null, str, float, int, bool, arr, obj, Elems, nil, cons, Decoders,
}

-- `strconv.ParseBool`
unfoldable pub parse_bool : Text → Option Bool
parse_bool s =
    if s == codes "1"
      || s == codes "t"
      || s == codes "T"
      || s == codes "TRUE"
      || s == codes "true"
      || s == codes "True"
    then some true
    else if s == codes "0"
        || s == codes "f"
        || s == codes "F"
        || s == codes "FALSE"
        || s == codes "false"
        || s == codes "False"
    then some false
    else none

module _ (d : Decoders) where
  unfoldable pub as_number : Text → Value
  as_number v = elim (d.parse_float v) [ none ↦ str v | some f ↦ float f ]

  unfoldable pub as_integer : Text → Value
  as_integer v = elim (parse_int v) [ none ↦ str v | some i ↦ int i ]

  unfoldable pub as_boolean : Text → Value
  as_boolean v = elim (parse_bool v) [ none ↦ str v | some b ↦ bool b ]

  unfoldable pub as_object : Text → Value
  as_object v = elim (d.unmarshal v) [ none ↦ str v | some parsed ↦ parsed ]

  -- A parsed array stays as it is; anything else is wrapped.
  unfoldable pub wrap : Value → Value
  wrap (arr xs) = arr xs
  wrap v = arr (cons v nil)

  unfoldable pub as_array : Text → Value
  as_array v = elim (d.unmarshal v) [ none ↦ arr (cons (str v) nil) | some parsed ↦ wrap parsed ]

  -- The `switch` on the lower-case type.
  unfoldable pub coerce_to : Text → Text → Value
  coerce_to type v =
      if type == codes "number"
      then as_number v
      else if type == codes "integer"
      then as_integer v
      else if type == codes "boolean"
      then as_boolean v
      else if type == codes "object"
      then as_object v
      else if type == codes "array"
      then as_array v
      else str v

  -- `coerce`
  unfoldable pub coerce : Text → Text → Bool → Value
  coerce v schema_type nullable =
      if nullable && v == codes "null" then null else coerce_to (to_lower d.unicode schema_type) v

  unfoldable pub convert : Dict SchemaProp → Text → Text → Value
  convert properties k v = elim (lookup k properties) [
    | none ↦ str v
    | some prop ↦ coerce v prop.type prop.nullable
  ]

  -- `convertArgs`; the keys of `args` are distinct, so each iteration adds its own entry.
  unfoldable pub convert_args : Dict SchemaProp → Dict Text → Dict Value
  convert_args properties [] = []
  convert_args properties ((k, v) ∷ args) =
      (k, convert properties k v) ∷ convert_args properties args
