-- ===== src/Base/Text.antt =====
-- Go strings: lists of bytes, and the functions of Go's `strings` package that the code calls.
pub mod Index
use Prim.Native.Char.{code}
use mcp_plugin.Base.Tests.{
  ℕ, zero, suc, ◌+◌, String, ◌≡◌, refl, ap, ◌↔◌, Bool, true, false, ◌&&◌, ◌||◌, Option, none, some,
  List, [], ◌∷◌, ◌++◌, map, arith, ltb, leb, nat_eq, if◌then◌else◌,
}

abbrev pub Text : Type 0
Text = List ℕ

-- The bytes of an ASCII literal.
abbrev pub codes : String → Text
codes String.[] = []
codes (String.◌∷◌ c s) = code c ∷ codes s

infix 50 ◌==◌
unfoldable pub ◌==◌ : Text → Text → Bool
[] == [] = true
(x ∷ xs) == (y ∷ ys) = nat_eq x y && xs == ys
_ == _ = false

pub eq_refl : (s : Text) → (s == s) ≡ true
unfolding ◌==◌
eq_refl [] = refl
eq_refl (x ∷ xs) = ground (arith, eq_refl xs)

pub eq_of_test : (s t : Text) → (s == t) ≡ true → s ≡ t
unfolding ◌==◌
eq_of_test [] [] h = refl
eq_of_test (x ∷ xs) (y ∷ ys) h = ground (arith, eq_of_test xs ys)
eq_of_test [] (y ∷ ys) h = cc
eq_of_test (x ∷ xs) [] h = cc

pub eq_iff : (s t : Text) → ((s == t) ≡ true) ↔ (s ≡ t)
eq_iff s t = (eq_of_test s t, λ e. cc (eq_refl s, ap (λ (u : Text). s == u) e))

-- `strings.CutPrefix`: what follows the prefix, if the text has it.
unfoldable pub cut_prefix : Text → Text → Option Text
cut_prefix s [] = some s
cut_prefix (x ∷ s) (y ∷ p) = if nat_eq x y then cut_prefix s p else none
cut_prefix [] (y ∷ p) = none

-- `strings.HasPrefix`
unfoldable pub has_prefix : Text → Text → Bool
unfolding cut_prefix
has_prefix s p = elim (cut_prefix s p) [ none ↦ false | some _ ↦ true ]

-- `strings.TrimPrefix`
unfoldable pub trim_prefix : Text → Text → Text
unfolding cut_prefix
trim_prefix s p = elim (cut_prefix s p) [ none ↦ s | some rest ↦ rest ]

pub cut_prefix-append : (p s : Text) → cut_prefix (p ++ s) p ≡ some s
unfolding cut_prefix
cut_prefix-append [] s = refl
cut_prefix-append (x ∷ p) s = ground (arith, cut_prefix-append p s)

pub has_prefix-append : (p s : Text) → has_prefix (p ++ s) p ≡ true
unfolding has_prefix
has_prefix-append p s = rw (cut_prefix-append p s, has_prefix)

pub append_of_cut_prefix : (s p r : Text) → cut_prefix s p ≡ some r → s ≡ p ++ r
unfolding cut_prefix
append_of_cut_prefix s [] r h = ground arith
append_of_cut_prefix (x ∷ s) (y ∷ p) r h = ground (arith, append_of_cut_prefix s p r)
append_of_cut_prefix [] (y ∷ p) r h = cc

-- `strings.Index`: the offset of the first occurrence.
unfoldable pub index : Text → Text → Option ℕ
unfolding has_prefix
index [] p = if has_prefix [] p then some 0 else none
index (x ∷ s) p =
    if has_prefix (x ∷ s) p
    then some 0
    else elim (index s p) [ none ↦ none | some i ↦ some (suc i) ]

-- `s[i:]`; out of range it panics, `none`.
unfoldable pub slice_from : Text → ℕ → Option Text
slice_from s zero = some s
slice_from [] (suc i) = none
slice_from (x ∷ s) (suc i) = slice_from s i

-- What stands before the first occurrence of byte `c`, or all of the text.
unfoldable pub until : ℕ → Text → Text
until c [] = []
until c (x ∷ s) = if nat_eq x c then [] else x ∷ until c s

-- `strings.Split` at a one-byte separator, with the field read so far.
unfoldable pub split_at : ℕ → Text → Text → List Text
split_at c field [] = field ∷ []
split_at c field (x ∷ s) =
    let closed = field ∷ split_at c [] s in
    let longer = split_at c (field ++ x ∷ []) s in if nat_eq x c then closed else longer

-- `strings.Join`
unfoldable pub join : List Text → Text → Text
join [] sep = []
join (s ∷ []) sep = s
join (s ∷ rest) sep = s ++ (sep ++ join rest sep)

unfoldable pub is_ascii : Text → Bool
is_ascii [] = true
is_ascii (x ∷ s) = ltb x 128 && is_ascii s

-- Go's `unicode` tables, which `strings.ToLower` and `strings.TrimSpace` consult only for a text
-- that is not ASCII.
pub record Unicode : Type 0 where
  pub lower : Text → Text
  pub trim : Text → Text

unfoldable pub lower_byte : ℕ → ℕ
lower_byte c = if leb b'A' c && leb c b'Z' then c + 32 else c

-- `strings.ToLower`
unfoldable pub to_lower : Unicode → Text → Text
unfolding is_ascii lower_byte
to_lower u s = if is_ascii s then map lower_byte s else u.lower s

-- '\t', '\n', '\v', '\f', '\r' and ' '
unfoldable pub is_space : ℕ → Bool
is_space c = nat_eq c 32 || (leb 9 c && leb c 13)

unfoldable pub trim_left : Text → Text
unfolding is_space
trim_left [] = []
trim_left (c ∷ s) = if is_space c then trim_left s else c ∷ s

-- Trailing spaces go: a space stays only before something that stays.
unfoldable pub trim_right : Text → Text
unfolding is_space
trim_right [] = []
trim_right (c ∷ s) = elim (trim_right s) [
  | [] ↦ if is_space c then [] else c ∷ []
  | d ∷ r ↦ c ∷ d ∷ r
]

-- `strings.TrimSpace`
unfoldable pub trim_space : Unicode → Text → Text
unfolding is_ascii trim_left trim_right
trim_space u s = if is_ascii s then trim_right (trim_left s) else u.trim s
