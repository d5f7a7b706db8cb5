-- ===== src/Plugin/Registry/Live/Closing.antt =====
-- Which clients `Close` closes.
use mcp_plugin.Base.Tests.{
  ℕ, ◌≡◌, refl, inl, inr, Bool, false, not, ◌&&◌, ◌||◌, Option, none, some, List, [], ◌∷◌, arith,
  nat_eq, Bool-cases, Option-cases,
}
use mcp_plugin.Base.Dict.{Dict}
use mcp_plugin.Plugin.Types.{Entry, Registry}
use mcp_plugin.Plugin.Upstream.{Host}
use mcp_plugin.Plugin.Registry.Live.{seen, to_close, close_all, close}

-- Whether the client `x` belongs to an entry.
abbrev pub is_client : Option ℕ → ℕ → Bool
is_client none x = false
is_client (some c) x = nat_eq x c

unfoldable pub holds : ℕ → Dict Entry → Bool
holds x [] = false
holds x ((k, e) ∷ m) = is_client e.client x || holds x m

abbrev pub IsOnce : List ℕ → Type 0
IsOnce [] = Unit
IsOnce (c ∷ cs) = (seen c cs ≡ false) × IsOnce cs

pub seen-to_close :
    (x : ℕ) (done : List ℕ) (m : Dict Entry)
    → seen x (to_close done m) ≡ (not (seen x done) && holds x m)
unfolding seen to_close holds
seen-to_close x done [] = ground arith
seen-to_close x done ((k, e) ∷ m) = elim (Option-cases e.client) [
  | inl none_left ↦ rw none_left (seen-to_close x done m)
  | inr (c, has) ↦ rw has (ground (arith, seen-to_close x done m, seen-to_close x (c ∷ done) m))
]

closed_once : (c : ℕ) (done : List ℕ) (m : Dict Entry) → seen c (to_close (c ∷ done) m) ≡ false
unfolding seen
closed_once c done m = ground (arith, seen-to_close c (c ∷ done) m)

to_close-IsOnce : (done : List ℕ) (m : Dict Entry) → IsOnce (to_close done m)
unfolding to_close
to_close-IsOnce done [] = tt
to_close-IsOnce done ((k, e) ∷ m) = elim (Option-cases e.client) [
  | inl none_left ↦ rw none_left (to_close-IsOnce done m)
  | inr (c, has) ↦ rw has (elim (Bool-cases (seen c done)) [
    | inl old ↦ rw old (to_close-IsOnce done m)
    | inr new ↦ rw new (closed_once c done m, to_close-IsOnce (c ∷ done) m)
  ])
]

module _ {W : Type 0} (host : Host W) where
  -- `Close` closes clients one after another: each client that belongs to an entry, exactly once,
  -- however many tools share it, and no other.
  pub close-IsOnce :
      (r : Registry) (w : W)
      → (cs : List ℕ) × (close host r w ≡ close_all host cs w)
        × IsOnce cs
        × ((x : ℕ) → seen x cs ≡ holds x r.actions)
  unfolding close seen
  close-IsOnce r w =
      (to_close [] r.actions, refl, to_close-IsOnce [] r.actions, λ x. seen-to_close x [] r.actions)
