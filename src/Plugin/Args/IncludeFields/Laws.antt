-- ===== src/Plugin/Args/IncludeFields/Laws.antt =====
-- What `sanitizeIncludeFields` leaves in the arguments, and when the parser of the description is
-- safe.
use mathlib.Core.Path.{subst}
use mcp_plugin.Base.Tests.{
  ℕ, suc, ◌+◌, ◌≤◌, ◌<◌, ◌≡◌, refl, ap, ◌≢◌, ◌⊎◌, inl, inr, true, false, none, some, List, [], ◌∷◌,
  map, arith, length, All, Option-cases, Bool-cases,
}
use mcp_plugin.Base.Text.{
  Text, ◌==◌, eq_iff, Unicode, is_ascii, lower_byte, to_lower, index, split_at, until,
}
use mcp_plugin.Base.Text.Index.{index_bound, slice_from_total, slice_from_past}
use mcp_plugin.Base.Dict.{Dict, lookup, lookup-insert, lookup-remove}
use mcp_plugin.Mcp.Types.Property.{SchemaProp}
use mcp_plugin.Plugin.Args.Value.{Value, null, str, arr, Elems, cons, elems, of_elems}
use mcp_plugin.Plugin.Args.IncludeFields.{
  marker, include_fields, parse_opt_in_fields, contains, keep_valid, store_filtered, apply_filter,
  is_all, field_names, filter_array, sanitize_value, sanitize_include_fields,
}

length-lower : (s : Text) → length (map lower_byte s) ≡ length s
length-lower [] = refl
length-lower (c ∷ s) = ap suc (length-lower s)

module _ (u : Unicode) where
  -- A description is read without a panic if lowering its case keeps its length.
  parse_opt_in_fields_total :
      (desc : Text)
      → length (to_lower u desc) ≡ length desc
      → (valid : List Text) × (parse_opt_in_fields u desc ≡ some valid)
  unfolding parse_opt_in_fields
  parse_opt_in_fields_total desc same = elim (Option-cases (index (to_lower u desc) marker)) [
    | inl missing ↦ ([], rw (missing, parse_opt_in_fields))
    | inr (idx, found) ↦
        let bound : idx + 12 ≤ length desc =
          omega (arith, index_bound (to_lower u desc) marker idx found) in
        let (rest, sliced) = slice_from_total desc (idx + 12) bound in
        (
          field_names u (split_at b',' [] (until b'.' rest)),
          rw (found, sliced, parse_opt_in_fields),
        )
  ]

  -- On an ASCII description `parseOptInFields` returns: its slice is never out of range.
  pub parse_opt_in_fields-ascii :
      (desc : Text)
      → is_ascii desc ≡ true
      → (valid : List Text) × (parse_opt_in_fields u desc ≡ some valid)
  unfolding to_lower
  parse_opt_in_fields-ascii desc ascii =
      parse_opt_in_fields_total desc (rw ascii (length-lower desc))

  -- Whenever lowering the case moves the marker past the end of the original description, the slice
  -- is out of range and `parseOptInFields` panics.
  pub parse_opt_in_fields_panics :
      (desc : Text) (idx : ℕ)
      → index (to_lower u desc) marker ≡ some idx
      → length desc < idx + length marker
      → parse_opt_in_fields u desc ≡ none
  unfolding parse_opt_in_fields
  parse_opt_in_fields_panics desc idx found past =
      rw (found, slice_from_past desc (idx + 12) past, parse_opt_in_fields)

  -- An element that is sent: a string of the opt-in set.
  abbrev pub IsOptIn : List Text → Value → Type 0
  IsOptIn valid (str s) = contains u valid s ≡ true
  IsOptIn valid _ = ⊥

  keep_valid-IsOptIn :
      (valid : List Text) (vs : List Value) → All (IsOptIn valid) (keep_valid u valid vs)
  unfolding keep_valid
  keep_valid-IsOptIn valid [] = tt
  keep_valid-IsOptIn valid (str s ∷ vs) = elim (Bool-cases (contains u valid s)) [
    | inl kept ↦ rw kept (kept, keep_valid-IsOptIn valid vs)
    | inr dropped ↦ rw dropped (keep_valid-IsOptIn valid vs)
  ]
  keep_valid-IsOptIn valid (_ ∷ vs) = keep_valid-IsOptIn valid vs

  lookup-store_filtered_ne :
      (k : Text) (args : Dict Value) (vs : List Value)
      → include_fields ≢ k
      → lookup k (store_filtered u args vs) ≡ lookup k args
  unfolding store_filtered
  lookup-store_filtered_ne k args [] h =
      ground (arith, lookup-remove include_fields k args, eq_iff include_fields k)
  lookup-store_filtered_ne k args (v ∷ vs) h = ground (
    arith,
    lookup-insert include_fields k (arr (of_elems (v ∷ vs))) args,
    eq_iff include_fields k,
  )

  lookup-apply_filter_ne :
      (k : Text) (args : Dict Value) (vs : List Value) (valid : List Text)
      → include_fields ≢ k
      → lookup k (apply_filter u args vs valid) ≡ lookup k args
  unfolding apply_filter
  lookup-apply_filter_ne k args vs [] ne = refl
  lookup-apply_filter_ne k args vs (x ∷ xs) ne =
      lookup-store_filtered_ne k args (keep_valid u (x ∷ xs) vs) ne

  filter_array_keeps :
      (properties : Dict SchemaProp) (k : Text) (args out : Dict Value) (vs : List Value)
      → include_fields ≢ k
      → filter_array u properties args vs ≡ some out
      → lookup k out ≡ lookup k args
  unfolding filter_array
  filter_array_keeps properties k args out vs ne h = elim (Bool-cases (is_all u vs)) [
    | inl every ↦ ground arith
    | inr other ↦ elim (Option-cases (lookup include_fields properties)) [
      | inl missing ↦ ground arith
      | inr (prop, declared) ↦ elim (Option-cases (parse_opt_in_fields u prop.description)) [
        | inl panic ↦ cc
        | inr (valid, read) ↦ ground (arith, lookup-apply_filter_ne k args vs valid)
      ]
    ]
  ]

  sanitize_value_keeps :
      (properties : Dict SchemaProp) (k : Text) (args out : Dict Value) (w : Value)
      → include_fields ≢ k
      → sanitize_value u properties args w ≡ some out
      → lookup k out ≡ lookup k args
  unfolding sanitize_value
  sanitize_value_keeps properties k args out null ne h =
      ground (arith, lookup-remove include_fields k args, eq_iff include_fields k)
  sanitize_value_keeps properties k args out (arr (cons v vs)) ne h =
      filter_array_keeps properties k args out (v ∷ elems vs) ne h
  sanitize_value_keeps properties k args out _ ne h = ground arith

  -- `sanitizeIncludeFields` changes no argument but "include_fields".
  pub sanitize_include_fields_keeps :
      (properties : Dict SchemaProp) (k : Text) (args out : Dict Value)
      → include_fields ≢ k
      → sanitize_include_fields u properties args ≡ some out
      → lookup k out ≡ lookup k args
  unfolding sanitize_include_fields
  sanitize_include_fields_keeps properties k args out ne h =
      elim (Option-cases (lookup include_fields args)) [
        | inl missing ↦ ground arith
        | inr (w, given) ↦ ground (arith, sanitize_value_keeps properties k args out w ne)
      ]

  -- What the stored argument is after the filter.
  abbrev pub IsFiltered : List Text → Dict Value → Type 0
  IsFiltered valid out =
      (lookup include_fields out ≡ none)
      ⊎ ((v : Value) × (vs : List Value) × (lookup include_fields out
            ≡ some (arr (of_elems (v ∷ vs))))
          × All (IsOptIn valid) (v ∷ vs))

  store_filtered-IsFiltered :
      (valid : List Text) (args : Dict Value) (vs : List Value)
      → All (IsOptIn valid) vs
      → IsFiltered valid (store_filtered u args vs)
  unfolding store_filtered ◌==◌
  store_filtered-IsFiltered valid args [] h = inl (lookup-remove include_fields include_fields args)
  store_filtered-IsFiltered valid args (v ∷ vs) h =
      inr (v, vs, lookup-insert include_fields include_fields (arr (of_elems (v ∷ vs))) args, h)

  -- Where the description names opt-in fields and the argument is a non-empty array other than
  -- ["all"], what is sent is a non-empty array of strings that are all opt-in fields, or no
  -- "include_fields" at all.
  pub sanitize_include_fields-IsFiltered :
      (properties : Dict SchemaProp) (args out : Dict Value) (prop : SchemaProp) (v : Value)
      (vs : Elems) (name : Text) (names : List Text)
      → lookup include_fields args ≡ some (arr (cons v vs))
      → is_all u (v ∷ elems vs) ≡ false
      → lookup include_fields properties ≡ some prop
      → parse_opt_in_fields u prop.description ≡ some (name ∷ names)
      → sanitize_include_fields u properties args ≡ some out
      → IsFiltered (name ∷ names) out
  unfolding sanitize_include_fields sanitize_value filter_array apply_filter
  sanitize_include_fields-IsFiltered properties args out prop v vs name names given other declared
        described h =
      let e : store_filtered u args (keep_valid u (name ∷ names) (v ∷ elems vs)) ≡ out =
        ground arith in
      subst (IsFiltered (name ∷ names)) e (
        store_filtered-IsFiltered (name ∷ names) args _
          (keep_valid-IsOptIn (name ∷ names) (v ∷ elems vs)))
