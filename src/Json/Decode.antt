-- ===== src/Json/Decode.antt =====
-- One JSON text split one level deep, and the decoding of struct fields from it.
use mcp_plugin.Base.Tests.{
  ℕ, zero, suc, Bool, Option, none, some, List, [], ◌∷◌, if◌then◌else◌, ◌>>=◌,
}
use mcp_plugin.Base.Text.{Text, ◌==◌, has_prefix, lower_byte}
use mcp_plugin.Base.Dict.{Dict, insert}

-- A number keeps its text; elements and members keep theirs.
pub data Shape : Type 0 where
  null : Shape
  bool : Bool → Shape
  num str : Text → Shape
  arr : List Text → Shape
  obj : Dict Text → Shape

-- `none` for a text that is not JSON.
abbrev pub Scanner : Type 0
Scanner = Text → Option Shape

-- Field names match up to simple case folding: ASCII letters, U+017F (long s) and U+212A (Kelvin).
-- `skip` counts the bytes of a folded character that are still to be passed over.
abbrev long_s : Text
long_s = 0xC5 ∷ 0xBF ∷ []

abbrev kelvin : Text
kelvin = 0xE2 ∷ 0x84 ∷ 0xAA ∷ []

unfoldable pub fold_from : ℕ → Text → Text
fold_from skip [] = []
fold_from (suc skip) (c ∷ s) = fold_from skip s
fold_from zero (c ∷ s) =
    let narrow_s = b's' ∷ fold_from 1 s in
    let narrow_k = b'k' ∷ fold_from 2 s in
    let same = lower_byte c ∷ fold_from 0 s in
    if has_prefix (c ∷ s) long_s
    then narrow_s
    else if has_prefix (c ∷ s) kelvin
    then narrow_k
    else same

unfoldable pub is_field : Text → Text → Bool
is_field key name = fold_from 0 key == fold_from 0 name

module _ (shape : Scanner) where
  -- A JSON null leaves the Go value as it is.
  unfoldable pub decode_string : Text → Text → Option Text
  decode_string old raw = elim (shape raw) [
    | none ↦ none
    | some v ↦ elim v [ null ↦ some old | str s ↦ some s | _ ↦ none ]
  ]

  unfoldable pub decode_bool : Bool → Text → Option Bool
  decode_bool old raw = elim (shape raw) [
    | none ↦ none
    | some v ↦ elim v [ null ↦ some old | bool b ↦ some b | _ ↦ none ]
  ]

  -- `*bool`: a null makes the pointer nil.
  unfoldable pub decode_flag : Text → Option (Option Bool)
  decode_flag raw = elim (shape raw) [
    | none ↦ none
    | some v ↦ elim v [ null ↦ some none | bool b ↦ some (some b) | _ ↦ none ]
  ]

  module _ {A : Type 0} (decode : Text → Option A) where
    unfoldable pub decode_each : List Text → Option (List A)
    decode_each [] = some []
    decode_each (raw ∷ raws) = do a ← decode raw; rest ← decode_each raws; some (a ∷ rest)

    -- A slice; null makes it nil.
    unfoldable pub decode_list : Text → Option (List A)
    decode_list raw = elim (shape raw) [
      | none ↦ none
      | some v ↦ elim v [ null ↦ some [] | arr raws ↦ decode_each raws | _ ↦ none ]
    ]

    unfoldable pub decode_members : Dict Text → Dict A → Option (Dict A)
    decode_members [] m = some m
    decode_members ((k, raw) ∷ rest) m = do a ← decode raw; decode_members rest (insert k a m)

    -- A map; null makes it nil.
    unfoldable pub decode_map : Dict A → Text → Option (Dict A)
    decode_map m raw = elim (shape raw) [
      | none ↦ none
      | some v ↦ elim v [ null ↦ some [] | obj members ↦ decode_members members m | _ ↦ none ]
    ]

  module _ {T : Type 0} (set_field : Text → Text → T → Option T) where
    -- The members in their order; each sets the field that its name selects.
    unfoldable pub set_fields : Dict Text → T → Option T
    set_fields [] t = some t
    set_fields ((k, raw) ∷ rest) t = do t' ← set_field k raw t; set_fields rest t'

    -- `json.Unmarshal` into a struct that holds `t`.
    unfoldable pub decode_struct : T → Text → Option T
    decode_struct t raw = elim (shape raw) [
      | none ↦ none
      | some v ↦ elim v [ null ↦ some t | obj members ↦ set_fields members t | _ ↦ none ]
    ]
