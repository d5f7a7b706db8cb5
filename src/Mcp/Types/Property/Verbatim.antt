-- ===== src/Mcp/Types/Property/Verbatim.antt =====
-- A property keeps the JSON that its server wrote.
use mcp_plugin.Base.Tests.{
  ◌≡◌, sym, ap, ◌∙◌, ◌≢◌, inl, inr, false, some, [], ◌∷◌, arith, Option-cases,
}
use mcp_plugin.Base.Text.{Text}
use mcp_plugin.Json.Decode.{Scanner, decode_struct}
use mcp_plugin.Mcp.Types.Property.{SchemaProp, set_alias_field, resolve_type, unmarshal, marshal}

module _ (shape : Scanner) where
  raw_of_resolve_type :
      (t : Text) (s p : SchemaProp) → resolve_type shape t s ≡ some p → p.raw ≡ s.raw
  unfolding resolve_type
  raw_of_resolve_type [] s p h = ground arith
  raw_of_resolve_type (c ∷ t) s p h = ground arith

  raw_of_unmarshal : (raw : Text) (p : SchemaProp) → unmarshal shape raw ≡ some p → p.raw ≡ raw
  unfolding unmarshal
  raw_of_unmarshal raw p h =
      elim (Option-cases (
        decode_struct shape (set_alias_field shape) (record { type = []; description = [] }) raw)) [
          | inl bad ↦ ground arith
          | inr (alias, read) ↦
              raw_of_resolve_type alias.type
                (record { type = []; nullable = false; description = alias.description; raw = raw })
                p (ground arith)
        ]

  marshal_raw :
      (encode : Text → Text → Text) (p : SchemaProp) → p.raw ≢ [] → marshal encode p ≡ p.raw
  unfolding marshal
  marshal_raw encode p h = ground arith

  -- A property that was read from a non-empty JSON text is written back as exactly that text, and
  -- reading it again gives the same property: the cache keeps what the server declared.
  pub marshal-unmarshal :
      (encode : Text → Text → Text) (raw : Text) (p : SchemaProp)
      → raw ≢ []
      → unmarshal shape raw ≡ some p
      → (marshal encode p ≡ raw) × (unmarshal shape (marshal encode p) ≡ some p)
  marshal-unmarshal encode raw p ne read =
      let kept : p.raw ≡ raw = raw_of_unmarshal raw p read in
      let back : marshal encode p ≡ raw = marshal_raw encode p (λ e. ne (sym kept ∙ e)) ∙ kept in
      (back, ap (unmarshal shape) back ∙ read)
