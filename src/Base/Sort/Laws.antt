-- ===== src/Base/Sort/Laws.antt =====
-- Sorting by distinct keys forgets the order of the list.
use mcp_plugin.Base.Tests.{◌≡◌, refl, ap, ◌∙◌, ◌≢◌, true, false, List, [], ◌∷◌, arith}
use mcp_plugin.Base.Text.{Text}
use mcp_plugin.Base.Sort.{text_leb, insert_sorted, sort_by}

text_leb_total : (s t : Text) → text_leb s t ≡ false → text_leb t s ≡ true
unfolding text_leb
text_leb_total [] t h = cc
text_leb_total (x ∷ s) [] h = refl
text_leb_total (x ∷ s) (y ∷ t) h = ground (arith, text_leb_total s t)

text_leb_antisymm : (s t : Text) → text_leb s t ≡ true → text_leb t s ≡ true → s ≡ t
unfolding text_leb
text_leb_antisymm [] [] h k = refl
text_leb_antisymm [] (y ∷ t) h k = cc
text_leb_antisymm (x ∷ s) [] h k = cc
text_leb_antisymm (x ∷ s) (y ∷ t) h k = ground (arith, text_leb_antisymm s t)

text_leb_trans : (s t u : Text) → text_leb s t ≡ true → text_leb t u ≡ true → text_leb s u ≡ true
unfolding text_leb
text_leb_trans [] t u h k = refl
text_leb_trans (x ∷ s) [] u h k = cc
text_leb_trans (x ∷ s) (y ∷ t) [] h k = cc
text_leb_trans (x ∷ s) (y ∷ t) (z ∷ u) h k = ground (arith, text_leb_trans s t u)

module _ {A : Type 0} (key : A → Text) where
  insert_sorted_comm :
      (a b : A) (l : List A)
      → key a ≢ key b
      → insert_sorted key a (insert_sorted key b l) ≡ insert_sorted key b (insert_sorted key a l)
  unfolding insert_sorted
  insert_sorted_comm a b [] ne =
      ground (arith, text_leb_total (key a) (key b), text_leb_antisymm (key a) (key b))
  insert_sorted_comm a b (c ∷ l) ne = ground (
    arith,
    insert_sorted_comm a b l,
    text_leb_total (key a) (key b),
    text_leb_antisymm (key a) (key b),
    text_leb_trans (key a) (key b) (key c),
    text_leb_trans (key b) (key a) (key c),
  )

  -- Two orders in which a map with distinct keys may be met.
  pub data Reorder : List A → List A → Type 0 where
    same : (l : List A) → Reorder l l
    skip : {l m : List A} (a : A) → Reorder l m → Reorder (a ∷ l) (a ∷ m)
    swap : (a b : A) (l : List A) → key a ≢ key b → Reorder (a ∷ b ∷ l) (b ∷ a ∷ l)
    trans : {l m n : List A} → Reorder l m → Reorder m n → Reorder l n

  pub sort_by-Reorder : {l m : List A} → Reorder l m → sort_by key l ≡ sort_by key m
  unfolding sort_by
  sort_by-Reorder (same l) = refl
  sort_by-Reorder (skip a r) = ap (insert_sorted key a) (sort_by-Reorder r)
  sort_by-Reorder (swap a b l ne) = insert_sorted_comm a b (sort_by key l) ne
  sort_by-Reorder (trans r s) = sort_by-Reorder r ∙ sort_by-Reorder s
