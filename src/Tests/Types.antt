-- ===== src/Tests/Types.antt =====
-- Runs of the reading and writing of a property.
use mcp_plugin.Base.Tests.{true, ◌≡◌, refl, if◌then◌else◌, false, some, [], ◌∷◌}
use mcp_plugin.Base.Text.{Text, codes, ◌==◌, has_prefix, lower_byte}
use mcp_plugin.Json.Decode.{
  Scanner, str, obj, arr, decode_struct, set_fields, is_field, fold_from, decode_string,
  decode_list, decode_each,
}
use mcp_plugin.Mcp.Types.Property.{
  SchemaProp, unmarshal, marshal, set_alias_field, resolve_type, mentions_null,
}
use mcp_plugin.Mcp.Types.Property.Nullable.{resolve_type_of_list}
use mcp_plugin.Mcp.Types.Property.Verbatim.{marshal-unmarshal}

-- A scanner of the texts that stand for one property.
abbrev quoted : Text
quoted = 0x22 ∷ codes "string"

abbrev scanner : Scanner
scanner s =
    if s == quoted then some (str (codes "string")) else some (obj ((codes "type", quoted) ∷ []))

abbrev written : Text
written = codes "{type}"

abbrev property : SchemaProp
property = record { type = codes "string"; nullable = false; description = []; raw = written }

abbrev encode : Text → Text → Text
encode type description = type

marshal-unmarshal_example :
    (marshal encode property ≡ written)
    × (unmarshal scanner (marshal encode property) ≡ some property)
unfolding unmarshal decode_struct ◌==◌ set_fields set_alias_field is_field fold_from has_prefix
    lower_byte resolve_type decode_string
marshal-unmarshal_example = marshal-unmarshal scanner encode written property (λ e. cc) refl

-- A scanner of the list ["null", "integer"] and of its elements.
abbrev list_scanner : Scanner
list_scanner s =
    if s == quoted
    then some (str (codes "integer"))
    else if s == codes "n"
    then some (str (codes "null"))
    else some (arr (codes "n" ∷ quoted ∷ []))

abbrev unset : SchemaProp
unset = record { type = []; nullable = false; description = []; raw = [] }

resolve_type_of_list_example :
    resolve_type list_scanner (codes "[n,i]") unset
    ≡ some (record unset { type = codes "integer"; nullable = true })
unfolding decode_list ◌==◌ decode_each decode_string mentions_null
resolve_type_of_list_example =
    resolve_type_of_list list_scanner 91 (codes "n,i]") unset (codes "null" ∷ []) []
      (codes "integer") refl refl (refl, tt) (λ e. cc)
