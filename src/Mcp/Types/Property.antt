-- ===== src/Mcp/Types/Property.antt =====
-- mcp/types.go: `SchemaProp` and its JSON methods.
pub mod Verbatim
pub mod Nullable
use mcp_plugin.Base.Tests.{
  Bool, false, ◌||◌, Option, none, some, List, [], ◌∷◌, nat_eq, if◌then◌else◌, ◌>>=◌,
}
use mcp_plugin.Base.Text.{Text, codes, ◌==◌}
use mcp_plugin.Json.Decode.{Scanner, is_field, decode_string, decode_list, decode_struct}

-- `SchemaProp`; an absent `Raw` is empty.
pub record SchemaProp : Type 0 where
  pub type : Text
  pub nullable : Bool
  pub description : Text
  pub raw : Text

-- `schemaPropAlias` of `UnmarshalJSON`
pub record Alias : Type 0 where
  pub type : Text
  pub description : Text

abbrev pub null_type : Text
null_type = codes "null"

-- The loop that sets `Nullable`.
unfoldable pub mentions_null : List Text → Bool
mentions_null [] = false
mentions_null (t ∷ ts) = t == null_type || mentions_null ts

-- The loop that picks the first element that is not "null".
unfoldable pub first_other : List Text → Option Text
first_other [] = none
first_other (t ∷ ts) = if t == null_type then first_other ts else some t

abbrev head_or : Text → List Text → Text
head_or old [] = old
head_or old (t ∷ ts) = t

-- The type that a list of type names gives: the first that is not "null", else the first, else
-- the type as it was.
unfoldable pub pick_type : Text → List Text → Text
pick_type old ts = elim (first_other ts) [ none ↦ head_or old ts | some t ↦ t ]

module _ (shape : Scanner) where
  unfoldable pub set_alias_field : Text → Text → Alias → Option Alias
  set_alias_field key raw a =
      if is_field key (codes "type")
      then some (record a { type = raw })
      else if is_field key (codes "description")
      then (do d ← decode_string shape a.description raw; some (record a { description = d }))
      else some a

  -- What `UnmarshalJSON` does with the raw `type`: its first byte tells a string from the rest.
  unfoldable pub resolve_type : Text → SchemaProp → Option SchemaProp
  resolve_type [] s = some s
  resolve_type (c ∷ t) s =
      if nat_eq c 34
      then (do n ← decode_string shape s.type (c ∷ t); some (record s { type = n }))
      else do
        types ← decode_list shape (decode_string shape []) (c ∷ t)
        some (record s {
          nullable = s.nullable || mentions_null types;
          type = pick_type s.type types;
        })

  -- `UnmarshalJSON` on a fresh value
  unfoldable pub unmarshal : Text → Option SchemaProp
  unmarshal raw = do
    alias ← decode_struct shape set_alias_field (record { type = []; description = [] }) raw
    resolve_type alias.type
        (record { type = []; nullable = false; description = alias.description; raw = raw })

-- `MarshalJSON`; `encode` is `json.Marshal` of the fields `type` and `description`, which is used
-- for a property that was built in code.
unfoldable pub marshal : (Text → Text → Text) → SchemaProp → Text
marshal encode s = elim s.raw [ [] ↦ encode s.type s.description | c ∷ r ↦ c ∷ r ]
