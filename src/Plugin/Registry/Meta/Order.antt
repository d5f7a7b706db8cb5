-- ===== src/Plugin/Registry/Meta/Order.antt =====
-- The order of a tool's parameters does not depend on the order in which a map is met.
use mcp_plugin.Base.Tests.{◌≡◌, List}
use mcp_plugin.Base.Text.{Text}
use mcp_plugin.Base.Dict.{Dict}
use mcp_plugin.Base.Sort.Laws.{Reorder, same, skip, swap, trans, sort_by-Reorder}
use mcp_plugin.Mcp.Types.Property.{SchemaProp}
use mcp_plugin.Mcp.Types.Tools.{InputSchema}
use mcp_plugin.Plugin.Registry.Meta.{parameters, parameter, parameter_name, schema_to_params}

abbrev pub prop_name : Text × SchemaProp → Text
prop_name p = p.0

parameters-Reorder :
    (required : List Text) {l m : Dict SchemaProp}
    → Reorder prop_name l m
    → Reorder parameter_name (parameters required l) (parameters required m)
unfolding parameters
parameters-Reorder required (same l) = same (parameters required l)
parameters-Reorder required (skip a r) =
    skip (parameter required a.0 a.1) (parameters-Reorder required r)
parameters-Reorder required (swap a b l ne) =
    swap (parameter required a.0 a.1) (parameter required b.0 b.1) (parameters required l) ne
parameters-Reorder required (trans r s) =
    trans (parameters-Reorder required r) (parameters-Reorder required s)

-- `schemaToParams` gives the same list for every order in which Go may range over the properties,
-- whose names are distinct: an unchanged tool is announced unchanged.
pub schema_to_params-Reorder :
    (schema : InputSchema) (properties : Dict SchemaProp)
    → Reorder prop_name schema.properties properties
    → schema_to_params schema ≡ schema_to_params (record schema { properties = properties })
unfolding schema_to_params
schema_to_params-Reorder schema properties r =
    sort_by-Reorder parameter_name (parameters-Reorder schema.required r)
