-- ===== src/Mcp/Headers.antt =====
-- mcp/client.go: `headerTransport`, and the keys of Go's `http.Header`. A header map holds one value
-- for each key, since the code only ever calls `Set`.
pub mod Laws
use mcp_plugin.Base.Tests.{
  ℕ, ◌+◌, ◌-◌, Bool, true, false, ◌&&◌, ◌||◌, Option, none, some, List, [], ◌∷◌, leb, nat_eq,
  if◌then◌else◌,
}
use mcp_plugin.Base.Text.{Text}
use mcp_plugin.Base.Dict.{Dict, insert}

unfoldable pub is_upper : ℕ → Bool
is_upper c = leb b'A' c && leb c b'Z'

unfoldable pub is_lower : ℕ → Bool
is_lower c = leb b'a' c && leb c b'z'

unfoldable pub member : ℕ → List ℕ → Bool
member c [] = false
member c (x ∷ xs) = nat_eq c x || member c xs

-- The bytes ! # $ % & ' * + - . ^ _ ` | ~
abbrev pub token_marks : List ℕ
token_marks = 33 ∷ 35 ∷ 36 ∷ 37 ∷ 38 ∷ 39 ∷ 42 ∷ 43 ∷ 45 ∷ 46 ∷ 94 ∷ 95 ∷ 96 ∷ 124 ∷ 126 ∷ []

-- A byte that may stand in a header's name.
unfoldable pub is_token : ℕ → Bool
is_token c = is_upper c || is_lower c || (leb b'0' c && leb c b'9') || member c token_marks

unfoldable pub all_token : Text → Bool
all_token [] = true
all_token (c ∷ s) = is_token c && all_token s

-- One byte, after a dash or at the start if `start`.
unfoldable pub cased : Bool → ℕ → ℕ
cased true c = if is_lower c then c - 32 else c
cased false c = if is_upper c then c + 32 else c

unfoldable pub canonical_from : Bool → Text → Text
canonical_from start [] = []
canonical_from start (c ∷ s) = cased start c ∷ canonical_from (nat_eq (cased start c) b'-') s

-- `http.CanonicalHeaderKey`
unfoldable pub canonical : Text → Text
canonical s = if all_token s then canonical_from true s else s

-- `Header.Set`, in a loop over the pairs of a map.
unfoldable pub set_all : Dict Text → Dict Text → Dict Text
set_all [] headers = headers
set_all ((k, v) ∷ rest) headers = set_all rest (insert (canonical k) v headers)

-- `headerTransport.RoundTrip`: the static headers of the configuration, then those of the request.
unfoldable pub outbound : Dict Text → Dict Text → Dict Text → Dict Text
outbound static extra headers = set_all extra (set_all static headers)
