-- ===== src/Plugin/Args/IncludeFields.antt =====
-- plugin/handler.go: `parseOptInFields` and `sanitizeIncludeFields`. `none` is the panic of a slice
-- that is out of range; a set of names is the list of its members.
pub mod Laws
use mcp_plugin.Base.Tests.{
  ℕ, ◌+◌, Bool, true, false, ◌||◌, Option, none, some, List, [], ◌∷◌, map, if◌then◌else◌, length,
  ◌>>=◌,
}
use mcp_plugin.Base.Text.{
  Text, codes, ◌==◌, Unicode, to_lower, index, slice_from, until, split_at, trim_space,
}
use mcp_plugin.Base.Dict.{Dict, lookup, insert, remove}
use mcp_plugin.Mcp.Types.Property.{SchemaProp}
use mcp_plugin.Plugin.Args.Value.{
  Value, null, str, float, int, bool, arr, obj, Elems, nil, cons, elems, of_elems,
}

abbrev pub marker : Text
marker = codes "a subset of:"

abbrev pub include_fields : Text
include_fields = codes "include_fields"

module _ (u : Unicode) where
  -- The loop over the comma-separated pieces.
  unfoldable pub field_names : List Text → List Text
  field_names [] = []
  field_names (f ∷ fs) =
      let name = trim_space u f in
      let rest = field_names fs in if name == [] then rest else name ∷ rest

  -- `parseOptInFields`: the offset is found in the lower-case text, and used on the text itself.
  unfoldable pub parse_opt_in_fields : Text → Option (List Text)
  parse_opt_in_fields desc = elim (index (to_lower u desc) marker) [
    | none ↦ some []
    | some idx ↦ (do
      rest ← slice_from desc (idx + 12)
      some (field_names (split_at b',' [] (until b'.' rest))))
  ]

  unfoldable pub contains : List Text → Text → Bool
  contains [] s = false
  contains (x ∷ xs) s = x == s || contains xs s

  -- The filtering loop; an element that is no string is dropped.
  unfoldable pub keep_valid : List Text → List Value → List Value
  keep_valid valid [] = []
  keep_valid valid (str s ∷ vs) =
      let rest = keep_valid valid vs in if contains valid s then str s ∷ rest else rest
  keep_valid valid (_ ∷ vs) = keep_valid valid vs

  -- The write back: an empty result removes the argument.
  unfoldable pub store_filtered : Dict Value → List Value → Dict Value
  store_filtered args [] = remove include_fields args
  store_filtered args (v ∷ vs) = insert include_fields (arr (of_elems (v ∷ vs))) args

  -- With no opt-in field known, the argument passes as it is.
  unfoldable pub apply_filter : Dict Value → List Value → List Text → Dict Value
  apply_filter args vs [] = args
  apply_filter args vs (x ∷ xs) = store_filtered args (keep_valid (x ∷ xs) vs)

  unfoldable pub is_all : List Value → Bool
  is_all (str s ∷ []) = s == codes "all"
  is_all _ = false

  -- Past the early returns on the value's shape: the array is not empty.
  unfoldable pub filter_array : Dict SchemaProp → Dict Value → List Value → Option (Dict Value)
  filter_array properties args vs =
      if is_all vs then some args else elim (lookup include_fields properties) [
        | none ↦ some args
        | some prop ↦ (do
          valid ← parse_opt_in_fields prop.description
          some (apply_filter args vs valid))
      ]

  unfoldable pub sanitize_value : Dict SchemaProp → Dict Value → Value → Option (Dict Value)
  sanitize_value properties args null = some (remove include_fields args)
  sanitize_value properties args (arr nil) = some args
  sanitize_value properties args (arr (cons v vs)) = filter_array properties args (v ∷ elems vs)
  sanitize_value properties args _ = some args

  -- `sanitizeIncludeFields`
  unfoldable pub sanitize_include_fields : Dict SchemaProp → Dict Value → Option (Dict Value)
  sanitize_include_fields properties args = elim (lookup include_fields args) [
    | none ↦ some args
    | some raw ↦ sanitize_value properties args raw
  ]
