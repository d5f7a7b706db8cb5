-- ===== src/Base/Int.antt =====
-- Signed 64-bit integers as `ℤ`, and Go's `strconv.ParseInt(s, 10, 64)`.
use mathlib.Core.Path.{subst}
use mcp_plugin.Base.Tests.{
  ℕ, zero, suc, ◌+◌, ◌-◌, ◌*◌, ◌^◌, ◌≤◌, ◌<◌, ◌≡◌, Option, none, some, [], ◌∷◌, ◌&&◌, arith, ltb,
  leb, nat_eq, if◌then◌else◌, ◌>>=◌, inl, inr, Bool-cases, Option-cases,
}
use mcp_plugin.Base.Text.{Text}

-- `negsuc n` is -(n + 1).
pub data ℤ : Type 0 where
  pos : ℕ → ℤ
  negsuc : ℕ → ℤ

abbrev pub InInt64 : ℤ → Type 0
InInt64 (pos n) = n < 2 ^ 63
InInt64 (negsuc n) = n < 2 ^ 63

-- The value of a run of decimal digits, read after `n`; any other byte is an error.
unfoldable pub digits_from : ℕ → Text → Option ℕ
digits_from n [] = some n
digits_from n (c ∷ s) =
    let rest = digits_from (n * 10 + (c - b'0')) s in
    if leb b'0' c && leb c b'9' then rest else none

-- `ParseUint` without its bound.
unfoldable pub digits : Text → Option ℕ
digits [] = none
digits (c ∷ s) = digits_from 0 (c ∷ s)

abbrev negated : ℕ → ℤ
negated = elim [ zero ↦ pos 0 | suc n ↦ negsuc n ]

unfoldable pub parse_pos : Text → Option ℤ
parse_pos s = do n ← digits s; if ltb n (2 ^ 63) then some (pos n) else none

unfoldable pub parse_neg : Text → Option ℤ
parse_neg s = do n ← digits s; if leb n (2 ^ 63) then some (negated n) else none

-- `none` is a syntax or a range error.
unfoldable pub parse_int : Text → Option ℤ
parse_int [] = none
parse_int (c ∷ s) =
    if nat_eq c b'-' then parse_neg s else if nat_eq c b'+' then parse_pos s else parse_pos (c ∷ s)

parse_pos-InInt64 : (s : Text) (i : ℤ) → parse_pos s ≡ some i → InInt64 i
unfolding parse_pos
parse_pos-InInt64 s (pos n) h = ground arith
parse_pos-InInt64 s (negsuc n) h = ground arith

negated-InInt64 : (n : ℕ) → n ≤ 2 ^ 63 → InInt64 (negated n)
negated-InInt64 zero h = omega arith
negated-InInt64 (suc n) h = h

parse_neg-InInt64 : (s : Text) (i : ℤ) → parse_neg s ≡ some i → InInt64 i
unfolding parse_neg
parse_neg-InInt64 s i h = elim (Option-cases (digits s)) [
  | inl bad ↦ cc
  | inr (n, read) ↦ elim (Bool-cases (leb n (2 ^ 63))) [
    | inl fits ↦
        (let e : negated n ≡ i = ground arith in subst InInt64 e (negated-InInt64 n (ground arith)))
    | inr big ↦ cc
  ]
]

-- What is accepted fits an int64.
pub parse_int-InInt64 : (s : Text) (i : ℤ) → parse_int s ≡ some i → InInt64 i
unfolding parse_int
parse_int-InInt64 (c ∷ s) i h =
    grind (arith, parse_neg-InInt64 s i, parse_pos-InInt64 s i, parse_pos-InInt64 (c ∷ s) i)
parse_int-InInt64 [] i h = cc
