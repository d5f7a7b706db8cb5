-- ===== src/Base/Text/Index.antt =====
-- Laws of `index` and `slice_from`.
use mcp_plugin.Base.Tests.{
  ℕ, zero, suc, ◌+◌, ◌≤◌, ◌<◌, ◌≡◌, refl, sym, ap, ◌∙◌, inl, inr, true, false, none, some, [], ◌∷◌,
  ◌++◌, append_assoc, arith, length, length-append, Bool-cases,
}
use mcp_plugin.Base.Text.{Text, cut_prefix, has_prefix, has_prefix-append, index, slice_from}

pub index_of_prefix : (s p : Text) → has_prefix s p ≡ true → index s p ≡ some 0
unfolding index
index_of_prefix [] p h = rw h
index_of_prefix (x ∷ s) p h = rw h

-- A text at least as long as the prefix decides.
pub has_prefix-append_left :
    (s rest p : Text) → length p ≤ length s → has_prefix (s ++ rest) p ≡ has_prefix s p
unfolding has_prefix cut_prefix
has_prefix-append_left s rest [] h = refl
has_prefix-append_left (x ∷ s) rest (y ∷ p) h = ground (arith, has_prefix-append_left s rest p)
has_prefix-append_left [] rest (y ∷ p) h = absurd (omega arith)

pub has_prefix-length : (s p : Text) → has_prefix s p ≡ true → length p ≤ length s
unfolding has_prefix cut_prefix
has_prefix-length s [] h = omega arith
has_prefix-length (x ∷ s) (y ∷ p) h = ground (arith, has_prefix-length s p)
has_prefix-length [] (y ∷ p) h = cc

index_cons :
    (x : ℕ) (s p : Text) (i : ℕ)
    → index (x ∷ s) p ≡ some (suc i)
    → (has_prefix (x ∷ s) p ≡ false) × (index s p ≡ some i)
unfolding index
index_cons x s p i h = ground arith

index_cons_next :
    (x : ℕ) (s p : Text) (i : ℕ)
    → has_prefix (x ∷ s) p ≡ false
    → index s p ≡ some i
    → index (x ∷ s) p ≡ some (suc i)
unfolding index
index_cons_next x s p i h k = ground arith

-- What follows the first occurrence does not matter.
pub index-append :
    (p q rest : Text)
    → index (p ++ q) q ≡ some (length p)
    → index (p ++ (q ++ rest)) q ≡ some (length p)
index-append [] q rest h = index_of_prefix (q ++ rest) q (has_prefix-append q rest)
index-append (x ∷ p) q rest h =
    let (other, later) = index_cons x (p ++ q) q (length p) h in
    let same : has_prefix (((x ∷ p) ++ q) ++ rest) q ≡ has_prefix ((x ∷ p) ++ q) q =
      has_prefix-append_left ((x ∷ p) ++ q) rest q (omega (arith, length-append p q)) in
    index_cons_next x (p ++ (q ++ rest)) q (length p)
      (ap (λ (t : Text). has_prefix (x ∷ t) q) (sym (append_assoc p q rest)) ∙ same ∙ other)
      (index-append p q rest later)

-- An occurrence lies within the text.
pub index_bound : (s p : Text) (i : ℕ) → index s p ≡ some i → i + length p ≤ length s
unfolding index
index_bound [] p i h = ground (arith, has_prefix-length [] p)
index_bound (x ∷ s) p zero h = elim (Bool-cases (has_prefix (x ∷ s) p)) [
  | inl here ↦ omega (arith, has_prefix-length (x ∷ s) p here)
  | inr other ↦ ground arith
]
index_bound (x ∷ s) p (suc i) h = omega (arith, index_bound s p i (index_cons x s p i h).1)

pub slice_from-append : (p s : Text) → slice_from (p ++ s) (length p) ≡ some s
unfolding slice_from
slice_from-append [] s = refl
slice_from-append (x ∷ p) s = slice_from-append p s

pub slice_from_total : (s : Text) (i : ℕ) → i ≤ length s → (r : Text) × (slice_from s i ≡ some r)
unfolding slice_from
slice_from_total s zero h = (s, refl)
slice_from_total (x ∷ s) (suc i) h = slice_from_total s i (omega arith)
slice_from_total [] (suc i) h = absurd (omega arith)

pub slice_from_past : (s : Text) (i : ℕ) → length s < i → slice_from s i ≡ none
unfolding slice_from
slice_from_past s zero h = absurd (omega arith)
slice_from_past (x ∷ s) (suc i) h = slice_from_past s i (omega arith)
slice_from_past [] (suc i) h = refl
