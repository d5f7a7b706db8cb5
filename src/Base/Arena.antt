-- ===== src/Base/Arena.antt =====
-- Objects by their numbers: a list of them, the newest first, in which the number of an object is
-- that of the objects that are older.
use mcp_plugin.Base.Tests.{
  ℕ, ◌<◌, ◌≡◌, refl, Option, none, some, List, [], ◌∷◌, arith, nat_eq, length, if◌then◌else◌,
}

module _ {ℓ} {A : Type ℓ} where
  unfoldable pub fetch : ℕ → List A → Option A
  fetch n [] = none
  fetch n (a ∷ older) = let rest = fetch n older in if nat_eq n (length older) then some a else rest

  unfoldable pub store : ℕ → A → List A → List A
  store n new [] = []
  store n new (a ∷ older) =
      let rest = a ∷ store n new older in if nat_eq n (length older) then new ∷ older else rest

  pub fetch_bound : (n : ℕ) (a : A) (l : List A) → fetch n l ≡ some a → n < length l
  unfolding fetch
  fetch_bound n a [] h = absurd (cc h)
  fetch_bound n a (b ∷ older) h = ground (arith, fetch_bound n a older)

  pub fetch_newest : (a : A) (l : List A) → fetch (length l) (a ∷ l) ≡ some a
  unfolding fetch
  fetch_newest a l = ground arith

  pub fetch_older : (n : ℕ) (a b : A) (l : List A) → fetch n l ≡ some a → fetch n (b ∷ l) ≡ some a
  unfolding fetch
  fetch_older n a b l h = ground (arith, fetch_bound n a l h)

  pub length-store : (n : ℕ) (a : A) (l : List A) → length (store n a l) ≡ length l
  unfolding store
  length-store n a [] = refl
  length-store n a (b ∷ older) = ground (arith, length-store n a older)

  pub fetch-store :
      (n m : ℕ) (new a : A) (l : List A)
      → fetch m l ≡ some a
      → fetch m (store n new l) ≡ (if nat_eq n m then some new else some a)
  unfolding fetch store
  fetch-store n m new a [] h = absurd (cc h)
  fetch-store n m new a (b ∷ older) h =
      ground (arith, fetch-store n m new a older, fetch_bound m a older, length-store n new older)
