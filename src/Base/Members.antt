-- ===== src/Base/Members.antt =====
-- Membership in a list that grows at its end.
use mathlib.Core.List.{Memᴰ}
use mcp_plugin.Base.Tests.{refl, List, [], ◌∷◌, ◌++◌}

module _ {ℓ} {A : Type ℓ} where
  pub Memᴰ-append_left : {x : A} {l : List A} (y : A) → Memᴰ x l → Memᴰ x (l ++ y ∷ [])
  Memᴰ-append_left y (Memᴰ.head e) = Memᴰ.head e
  Memᴰ-append_left y (Memᴰ.tail m) = Memᴰ.tail (Memᴰ-append_left y m)

  pub Memᴰ-concat : (l : List A) (x : A) → Memᴰ x (l ++ x ∷ [])
  Memᴰ-concat [] x = Memᴰ.head refl
  Memᴰ-concat (y ∷ l) x = Memᴰ.tail (Memᴰ-concat l x)
