-- ===== src/Base/Sort.antt =====
-- `sort.Strings`, and `sort.Slice` by a string key: insertion sort. The keys that the code sorts are
-- the distinct keys of a map, for which every sorting algorithm has the same result.
pub mod Laws
use mcp_plugin.Base.Tests.{
  ℕ, Bool, true, false, ◌&&◌, ◌||◌, List, [], ◌∷◌, ltb, nat_eq, if◌then◌else◌,
}
use mcp_plugin.Base.Text.{Text}

-- `a <= b` on Go strings: byte by byte.
unfoldable pub text_leb : Text → Text → Bool
text_leb [] t = true
text_leb (x ∷ s) [] = false
text_leb (x ∷ s) (y ∷ t) = ltb x y || (nat_eq x y && text_leb s t)

module _ {A : Type 0} (key : A → Text) where
  unfoldable pub insert_sorted : A → List A → List A
  insert_sorted a [] = a ∷ []
  insert_sorted a (b ∷ bs) = if text_leb (key a) (key b) then a ∷ b ∷ bs else b ∷ insert_sorted a bs

  unfoldable pub sort_by : List A → List A
  sort_by [] = []
  sort_by (a ∷ as') = insert_sorted a (sort_by as')
