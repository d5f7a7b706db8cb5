-- ===== src/Mcp/Types/Property/Nullable.antt =====
-- A property's type that is a list of type names.
use mcp_plugin.Base.Tests.{ℕ, ◌≡◌, ◌≢◌, false, ◌||◌, some, List, [], ◌∷◌, ◌++◌, arith, nat_eq, All}
use mcp_plugin.Base.Text.{Text, eq_iff}
use mcp_plugin.Json.Decode.{Scanner, decode_string, decode_list}
use mcp_plugin.Mcp.Types.Property.{
  SchemaProp, null_type, mentions_null, first_other, pick_type, resolve_type,
}

first_other-skip :
    (before after : List Text) (name : Text)
    → All (λ t. t ≡ null_type) before
    → name ≢ null_type
    → first_other (before ++ name ∷ after) ≡ some name
unfolding first_other
first_other-skip [] after name _ ne = ground (arith, eq_iff name null_type)
first_other-skip (t ∷ before) after name (is_null, h) ne =
    ground (arith, eq_iff t null_type, first_other-skip before after name h ne)

module _ (shape : Scanner) where
  -- Where the type is a list, `UnmarshalJSON` takes its first name that is not "null", wherever that
  -- stands, and makes the property nullable if the list has "null".
  pub resolve_type_of_list :
      (c : ℕ) (t : Text) (s : SchemaProp) (before after : List Text) (name : Text)
      → nat_eq c 34 ≡ false
      → decode_list shape (decode_string shape []) (c ∷ t) ≡ some (before ++ name ∷ after)
      → All (λ x. x ≡ null_type) before
      → name ≢ null_type
      → resolve_type shape (c ∷ t) s
        ≡ some (record s {
          type = name;
          nullable = s.nullable || mentions_null (before ++ name ∷ after);
        })
  unfolding resolve_type pick_type
  resolve_type_of_list c t s before after name list read h ne =
      rw (list, resolve_type, read, first_other-skip before after name h ne, pick_type)
