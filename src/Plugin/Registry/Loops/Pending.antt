-- ===== src/Plugin/Registry/Loops/Pending.antt =====
-- The entries without a client, during a round of `reconnectOfflineLoop`.
use mathlib.Core.Path.{subst}
use mathlib.Core.List.{Memᴰ}
use mcp_plugin.Base.Tests.{
  ℕ, ◌≡◌, ◌≢◌, sym, ap, ◌∙◌, ◌⊎◌, inl, inr, true, none, some, List, [], ◌∷◌, ◌++◌, Bool-cases,
  Result, ok, err,
}
use mcp_plugin.Base.Members.{Memᴰ-append_left, Memᴰ-concat}
use mcp_plugin.Base.Text.{Text, ◌==◌, eq_refl}
use mcp_plugin.Base.Dict.{lookup}
use mcp_plugin.Config.Expand.{ServerConfig}
use mcp_plugin.Plugin.Types.{Entry, Registry}
use mcp_plugin.Plugin.Upstream.{Host}
use mcp_plugin.Plugin.Registry.Live.{set_client, reconnected, reconnect}
use mcp_plugin.Plugin.Registry.Live.Reconnect.{before, renewed}

-- Every entry without a client in the registry `r'` is one in `r`.
abbrev pub IsNoWorse : Registry → Registry → Type 0
IsNoWorse r r' =
    (k : Text) (e : Entry)
    → lookup k r'.actions ≡ some e
    → e.client ≡ none
    → lookup k r.actions ≡ some e

-- Every entry without a client is of a server that is still offline or has its turn to come.
abbrev pub IsPending : Registry → List ServerConfig → List ServerConfig → Type 0
IsPending r still pending =
    (k : Text) (e : Entry)
    → lookup k r.actions ≡ some e
    → e.client ≡ none
    → Memᴰ e.cfg still ⊎ Memᴰ e.cfg pending

pub put_back :
    (r : Registry) (still pending : List ServerConfig) (cfg : ServerConfig)
    → IsPending r still (cfg ∷ pending)
    → IsPending r (still ++ cfg ∷ []) pending
put_back r still pending cfg known k e found dead = moved (known k e found dead)
  where
    moved :
        Memᴰ e.cfg still ⊎ Memᴰ e.cfg (cfg ∷ pending)
        → Memᴰ e.cfg (still ++ cfg ∷ []) ⊎ Memᴰ e.cfg pending
    moved (inl m) = inl (Memᴰ-append_left cfg m)
    moved (inr (Memᴰ.head is)) =
        inl (subst (λ c. Memᴰ c (still ++ cfg ∷ [])) (sym is) (Memᴰ-concat still cfg))
    moved (inr (Memᴰ.tail m)) = inr m

unrenewed :
    (server : Text) (client : ℕ) (old e : Entry)
    → renewed server client old ≡ e
    → e.client ≡ none
    → (old ≡ e) × ((old.cfg.server == server) ≢ true)
unrenewed server client old e = elim (Bool-cases (old.cfg.server == server)) [
  | inl same ↦ rw same (λ is dead. absurd (cc (ap (λ (x : Entry). x.client) is, dead)))
  | inr other ↦ rw other (λ is dead. (is, λ same. absurd (cc same)))
]

pub came_back :
    (r : Registry) (still pending : List ServerConfig) (cfg : ServerConfig) (client : ℕ)
    → IsPending r still (cfg ∷ pending)
    → IsPending (set_client cfg.server client r) still pending
came_back r still pending cfg client known k e found dead =
    let (old, was, is) = before cfg.server client k r e found in
    let (same, other) = unrenewed cfg.server client old e is dead in
    moved (subst (λ (x : Entry). (x.cfg.server == cfg.server) ≢ true) same other)
      (known k e (was ∙ ap some same) dead)
  where
    moved :
        ((e.cfg.server == cfg.server) ≢ true)
        → Memᴰ e.cfg still ⊎ Memᴰ e.cfg (cfg ∷ pending)
        → Memᴰ e.cfg still ⊎ Memᴰ e.cfg pending
    moved other (inl m) = inl m
    moved other (inr (Memᴰ.head is)) = absurd (
        other (
          subst (λ (c : ServerConfig). (c.server == cfg.server) ≡ true) (sym is)
            (eq_refl cfg.server)))
    moved other (inr (Memᴰ.tail m)) = inr m

no_member {ℓ} : {A : Type ℓ} {x : A} → Memᴰ x [] → ⊥
no_member m = elim m [ ]

-- What is still offline after a round is what the next round has pending.
pub next_round :
    (still : List ServerConfig) (r : Registry) → IsPending r still [] → IsPending r [] still
next_round still r known k e found dead = moved (known k e found dead)
  where
    moved : Memᴰ e.cfg still ⊎ Memᴰ e.cfg [] → Memᴰ e.cfg [] ⊎ Memᴰ e.cfg still
    moved (inl m) = inr m
    moved (inr m) = absurd (no_member m)

pub none_pending :
    (r : Registry)
    → IsPending r [] []
    → (k : Text) (e : Entry) → lookup k r.actions ≡ some e
    → e.client ≢ none
none_pending r known k e found dead = nowhere (known k e found dead)
  where
    nowhere : Memᴰ e.cfg [] ⊎ Memᴰ e.cfg [] → ⊥
    nowhere (inl m) = no_member m
    nowhere (inr m) = no_member m

-- The reconnects of `Execute`, which run beside the loop, leave no entry without its client.
module _ {W : Type 0} (host : Host W) where
  pub reconnect-IsNoWorse :
      (cfg : ServerConfig) (r : Registry) (w : W) → IsNoWorse r (reconnect host cfg r w).1
  unfolding reconnect
  reconnect-IsNoWorse cfg r w =
      outcome (host.upstream.connect cfg w).0 (host.upstream.connect cfg w).1
    where
      outcome : (c : Result ℕ) (w' : W) → IsNoWorse r (reconnected host cfg c w' r).1
      outcome (err e) w' k entry found dead = unfold reconnected in found
      outcome (ok client) w' k entry found dead =
          let (old, was, is) = before cfg.server client k r entry (unfold reconnected in found) in
          was ∙ ap some (unrenewed cfg.server client old entry is dead).0
