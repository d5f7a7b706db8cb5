-- ===== src/Plugin/Args/Coerce/Kinds.antt =====
-- What `coerce` sends for each declared type.
use mathlib.Core.Path.{subst, sym}
use mcp_plugin.Base.Tests.{
  ◌≡◌, ◌≢◌, ◌⊎◌, Option, none, some, arith, inl, inr, Bool, false, ◌&&◌, refl, Option-cases,
}
use mcp_plugin.Base.Text.{Text, codes, ◌==◌, eq_iff, to_lower}
use mcp_plugin.Base.Int.{InInt64, parse_int, parse_int-InInt64}
use mcp_plugin.Plugin.Args.Value.{Value, null, str, float, int, bool, arr, obj, nil, cons, Decoders}
use mcp_plugin.Plugin.Args.Coerce.{
  parse_bool, as_number, as_integer, as_boolean, as_object, wrap, as_array, coerce_to, coerce,
}

-- The value that the argument is read as, or the argument as it came if it is not read.
abbrev pub Read : {A : Type 0} → Option A → (A → Value) → Text → Value → Type 0
Read {A} r f v w = ((a : A) × (r ≡ some a) × (w ≡ f a)) ⊎ ((r ≡ none) × (w ≡ str v))

abbrev pub IsIntegerOr : Text → Value → Type 0
IsIntegerOr v (int i) = InInt64 i
IsIntegerOr v (str s) = s ≡ v
IsIntegerOr v _ = ⊥

abbrev pub IsNoArray : Value → Type 0
IsNoArray (arr _) = ⊥
IsNoArray _ = Unit

-- The array of the argument's JSON text; an array of the one value of another JSON text; or an array
-- of the argument alone.
abbrev pub IsArrayOf : Decoders → Text → Value → Type 0
IsArrayOf d v (arr xs) =
    (d.unmarshal v ≡ some (arr xs))
    ⊎ ((x : Value) × IsNoArray x × (d.unmarshal v ≡ some x) × (xs ≡ cons x nil))
    ⊎ ((d.unmarshal v ≡ none) × (xs ≡ cons (str v) nil))
IsArrayOf d v _ = ⊥

-- A type that the switch does not name.
abbrev pub IsOther : Text → Type 0
IsOther type =
    (type ≢ codes "array")
    × (type ≢ codes "integer")
    × (type ≢ codes "number")
    × (type ≢ codes "boolean")
    × (type ≢ codes "object")

-- The demand of a declared type on the value that is sent for the argument `v`.
abbrev pub Meets : Decoders → Text → Text → Value → Type 0
Meets d v type w =
    (type ≡ codes "array" → IsArrayOf d v w)
    × (type ≡ codes "integer" → Read (parse_int v) int v w × IsIntegerOr v w)
    × (type ≡ codes "number" → Read (d.parse_float v) float v w)
    × (type ≡ codes "boolean" → Read (parse_bool v) bool v w)
    × (type ≡ codes "object" → Read (d.unmarshal v) (λ x. x) v w)
    × (IsOther type → w ≡ str v)

test_ne : (s t : Text) → s ≢ t → (s == t) ≡ false
test_ne s t h = ground (arith, eq_iff s t)

elim-Read :
    {A : Type 0} (r : Option A) (f : A → Value) (v : Text)
    → Read r f v (elim r [ none ↦ str v | some a ↦ f a ])
elim-Read none f v = inr (refl, refl)
elim-Read (some a) f v = inl (a, refl, refl)

module _ (d : Decoders) where
  as_integer-IsIntegerOr : (v : Text) → IsIntegerOr v (as_integer d v)
  unfolding as_integer
  as_integer-IsIntegerOr v = elim (Option-cases (parse_int v)) [
    | inl bad ↦ rw (bad, IsIntegerOr) refl
    | inr (i, read) ↦ rw (read, IsIntegerOr) (parse_int-InInt64 v i read)
  ]

  as_integer-Read : (v : Text) → Read (parse_int v) int v (as_integer d v)
  unfolding as_integer
  as_integer-Read v = elim-Read (parse_int v) int v

  as_number-Read : (v : Text) → Read (d.parse_float v) float v (as_number d v)
  unfolding as_number
  as_number-Read v = elim-Read (d.parse_float v) float v

  as_boolean-Read : (v : Text) → Read (parse_bool v) bool v (as_boolean d v)
  unfolding as_boolean
  as_boolean-Read v = elim-Read (parse_bool v) bool v

  as_object-Read : (v : Text) → Read (d.unmarshal v) (λ x. x) v (as_object d v)
  unfolding as_object
  as_object-Read v = elim-Read (d.unmarshal v) (λ x. x) v

  wrap-IsArrayOf : (v : Text) (x : Value) → d.unmarshal v ≡ some x → IsArrayOf d v (wrap d x)
  unfolding wrap
  wrap-IsArrayOf v (arr xs) read = inl read
  wrap-IsArrayOf v null read = inr (inl (null, tt, read, refl))
  wrap-IsArrayOf v (str s) read = inr (inl (str s, tt, read, refl))
  wrap-IsArrayOf v (float f) read = inr (inl (float f, tt, read, refl))
  wrap-IsArrayOf v (int i) read = inr (inl (int i, tt, read, refl))
  wrap-IsArrayOf v (bool b) read = inr (inl (bool b, tt, read, refl))
  wrap-IsArrayOf v (obj m) read = inr (inl (obj m, tt, read, refl))

  as_array-IsArrayOf : (v : Text) → IsArrayOf d v (as_array d v)
  unfolding as_array
  as_array-IsArrayOf v = elim (Option-cases (d.unmarshal v)) [
    | inl bad ↦ subst (IsArrayOf d v) (sym (unread bad)) (inr (inr (bad, refl)))
    | inr (x, read) ↦ subst (IsArrayOf d v) (sym (was_read x read)) (wrap-IsArrayOf v x read)
  ]
    where
      unread : d.unmarshal v ≡ none → as_array d v ≡ arr (cons (str v) nil)
      unread bad = rw (bad, as_array)

      was_read : (x : Value) → d.unmarshal v ≡ some x → as_array d v ≡ wrap d x
      was_read x read = rw (read, as_array)

  coerce_not_null :
      (v schema_type : Text) (nullable : Bool)
      → (nullable && v == codes "null") ≡ false
      → coerce d v schema_type nullable ≡ coerce_to d (to_lower d.unicode schema_type) v
  unfolding coerce
  coerce_not_null v schema_type nullable h = rw h

  coerce_to_other : (v type : Text) → IsOther type → coerce_to d type v ≡ str v
  unfolding coerce_to
  coerce_to_other v type (a, i, n, b, o) = rw (
    test_ne type (codes "number") n,
    test_ne type (codes "integer") i,
    test_ne type (codes "boolean") b,
    test_ne type (codes "object") o,
    test_ne type (codes "array") a,
  )

  coerce_to-Meets : (v type : Text) → Meets d v type (coerce_to d type v)
  unfolding coerce_to ◌==◌
  coerce_to-Meets v type = (
    λ e. rw e (as_array-IsArrayOf v),
    λ e. rw e (as_integer-Read v, as_integer-IsIntegerOr v),
    λ e. rw e (as_number-Read v),
    λ e. rw e (as_boolean-Read v),
    λ e. rw e (as_object-Read v),
    coerce_to_other v type,
  )

  -- Unless it is the null of a nullable property, an argument is sent as its declared type says, in
  -- any case of letters. An integer, a number or a boolean is the value that it reads as, an integer
  -- within int64, or the unchanged string if it does not read so. An array is the array that it is
  -- in JSON, or else has one element, its JSON value or the string. An object is the value that it
  -- has in JSON, which need not be an object, or the unchanged string if it has none. Of any other
  -- type it is the unchanged string.
  pub coerce-Meets :
      (v schema_type : Text) (nullable : Bool)
      → (nullable && v == codes "null") ≡ false
      → Meets d v (to_lower d.unicode schema_type) (coerce d v schema_type nullable)
  coerce-Meets v schema_type nullable h =
      subst (Meets d v (to_lower d.unicode schema_type))
        (sym (coerce_not_null v schema_type nullable h))
        (coerce_to-Meets v (to_lower d.unicode schema_type))
