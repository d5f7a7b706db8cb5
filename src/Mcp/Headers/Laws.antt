-- ===== src/Mcp/Headers/Laws.antt =====
-- Which value an outbound header has.
use mcp_plugin.Base.Tests.{
  ℕ, ◌≡◌, refl, ap, Bool, true, false, Option, none, some, [], ◌∷◌, arith, nat_eq, if◌then◌else◌,
  inl, inr, Bool-cases,
}
use mcp_plugin.Base.Text.{Text, ◌==◌}
use mcp_plugin.Base.Dict.{Dict, lookup, insert, lookup-insert}
use mcp_plugin.Mcp.Headers.{
  is_upper, is_lower, is_token, all_token, cased, canonical_from, canonical, set_all, outbound,
  member,
}

abbrev pub or_else : Option Text → Option Text → Option Text
or_else none b = b
or_else (some a) b = some a

-- The value of the last pair whose name is the key `k` up to spelling.
abbrev pub last_set : Text → Dict Text → Option Text
last_set k [] = none
last_set k ((j, v) ∷ rest) = or_else (last_set k rest) (if canonical j == k then some v else none)

lookup-set_all :
    (k : Text) (pairs headers : Dict Text)
    → lookup k (set_all pairs headers) ≡ or_else (last_set k pairs) (lookup k headers)
unfolding set_all
lookup-set_all k [] headers = refl
lookup-set_all k ((j, v) ∷ rest) headers = ground (
  arith,
  lookup-set_all k rest (insert (canonical j) v headers),
  lookup-insert (canonical j) k v headers,
)

-- A header sent with a request has the request's own value if it has one, else the configured
-- value, else the value that the transport had set; names count up to spelling, and of two that
-- are spelled differently the last one met wins.
pub lookup-outbound :
    (k : Text) (static extra headers : Dict Text)
    → lookup k (outbound static extra headers)
      ≡ or_else (last_set k extra) (or_else (last_set k static) (lookup k headers))
unfolding outbound
lookup-outbound k static extra headers =
    ground (arith, lookup-set_all k extra (set_all static headers), lookup-set_all k static headers)

cased-cased : (b : Bool) (c : ℕ) → cased b (cased b c) ≡ cased b c
unfolding cased is_lower is_upper
cased-cased true c = ground arith
cased-cased false c = ground arith

canonical_from-canonical_from :
    (b : Bool) (s : Text) → canonical_from b (canonical_from b s) ≡ canonical_from b s
unfolding canonical_from
canonical_from-canonical_from b [] = refl
canonical_from-canonical_from b (c ∷ s) =
    rw (cased-cased b c)
      (ap (λ (t : Text). cased b c ∷ t) (canonical_from-canonical_from (nat_eq (cased b c) b'-') s))

is_token-cased : (b : Bool) (c : ℕ) → is_token c ≡ true → is_token (cased b c) ≡ true
unfolding is_token cased is_lower is_upper member
is_token-cased true c h = ground arith
is_token-cased false c h = ground arith

all_token-canonical_from :
    (b : Bool) (s : Text) → all_token s ≡ true → all_token (canonical_from b s) ≡ true
unfolding all_token canonical_from
all_token-canonical_from b [] h = refl
all_token-canonical_from b (c ∷ s) h =
    ground (arith, is_token-cased b c, all_token-canonical_from (nat_eq (cased b c) b'-') s)

-- The key of a header is its own key: a name is stored under one spelling.
pub canonical-canonical : (s : Text) → canonical (canonical s) ≡ canonical s
unfolding canonical
canonical-canonical s = elim (Bool-cases (all_token s)) [
  | inl token ↦
      rw token (rw (all_token-canonical_from true s token) (canonical_from-canonical_from true s))
  | inr other ↦ rw other (rw other refl)
]
