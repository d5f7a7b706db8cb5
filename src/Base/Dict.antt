-- ===== src/Base/Dict.antt =====
-- Go maps with string keys: association lists. The list's order stands for the order in which a
-- `range` loop meets the keys, which Go leaves open.
use mcp_plugin.Base.Tests.{
  ◌≡◌, refl, Bool, Option, none, some, List, [], ◌∷◌, arith, if◌then◌else◌, is_some, ◌⊎◌, inl, inr,
  Bool-cases,
}
use mcp_plugin.Base.Text.{Text, ◌==◌, eq_iff}

abbrev pub Dict {ℓ} : Type ℓ → Type ℓ
Dict V = List (Text × V)

module _ {ℓ} {V : Type ℓ} where
  unfoldable pub lookup : Text → Dict V → Option V
  lookup name [] = none
  lookup name ((at, found) ∷ rest) = if at == name then some found else lookup name rest

  -- A new key goes to the end; an old one keeps its place.
  unfoldable pub insert : Text → V → Dict V → Dict V
  insert name new [] = (name, new) ∷ []
  insert name new ((at, old) ∷ rest) =
      let later = insert name new rest in if at == name then (at, new) ∷ rest else (at, old) ∷ later

  unfoldable pub remove : Text → Dict V → Dict V
  remove name [] = []
  remove name ((at, old) ∷ rest) =
      let later = remove name rest in if at == name then later else (at, old) ∷ later

  pub lookup-remove :
      (name key : Text) (m : Dict V)
      → lookup key (remove name m) ≡ (if name == key then none else lookup key m)
  unfolding lookup remove
  lookup-remove name key [] = ground arith
  lookup-remove name key ((at, old) ∷ rest) =
      ground (arith, lookup-remove name key rest, eq_iff name key, eq_iff at name, eq_iff at key)

  pub lookup-insert :
      (name key : Text) (new : V) (m : Dict V)
      → lookup key (insert name new m) ≡ (if name == key then some new else lookup key m)
  unfolding lookup insert
  lookup-insert name key new [] = refl
  lookup-insert name key new ((at, old) ∷ rest) =
      ground
        (arith, lookup-insert name key new rest, eq_iff name key, eq_iff at name, eq_iff at key)

  -- What is found after an insertion is what was inserted, or was there before.
  pub lookup-insert_cases :
      (k j : Text) (v w : V) (m : Dict V)
      → lookup j (insert k v m) ≡ some w
      → ((k ≡ j) × (v ≡ w)) ⊎ (lookup j m ≡ some w)
  lookup-insert_cases k j v w m h = elim (Bool-cases (k == j)) [
    | inl same ↦ inl ((eq_iff k j).0 same, ground (arith, lookup-insert k j v m))
    | inr other ↦ inr (ground (arith, lookup-insert k j v m))
  ]

  unfoldable pub has_key : Text → Dict V → Bool
  unfolding lookup
  has_key k m = is_some (lookup k m)

pub ruleset dict_laws = (lookup-insert, lookup-remove)
