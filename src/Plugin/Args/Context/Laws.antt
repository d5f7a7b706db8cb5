-- ===== src/Plugin/Args/Context/Laws.antt =====
-- No context argument leaks into the tool's arguments, and what is forwarded.
use mathlib.Core.Path.{ap₂}
use mcp_plugin.Base.Tests.{
  ◌≡◌, refl, sym, ◌∙◌, ◌≢◌, inl, inr, not, ◌&&◌, Option, none, some, [], ◌∷◌, ◌++◌, arith,
  if◌then◌else◌, All, Option-cases,
}
use mcp_plugin.Base.Text.{Text, ◌==◌, eq_iff}
use mcp_plugin.Base.Dict.{Dict, lookup, insert, remove, lookup-remove, has_key}
use mcp_plugin.Mcp.Headers.{canonical, set_all}
use mcp_plugin.Plugin.Args.Value.{Value, str}
use mcp_plugin.Plugin.Args.Context.{set_header, forward_one, forward}

lookup-forward_one :
    (k ctx_arg name : Text) (args : Dict Value) (headers : Dict Text)
    → lookup k (forward_one ctx_arg name (args, headers)).0
      ≡ (if ctx_arg == k then none else lookup k args)
unfolding forward_one
lookup-forward_one k ctx_arg name args headers = elim (Option-cases (lookup ctx_arg args)) [
  | inl missing ↦ ground (arith, eq_iff ctx_arg k)
  | inr (raw, found) ↦ ground (arith, lookup-remove ctx_arg k args)
]

lookup-forward_from :
    (k : Text) (ctx : Dict Text) (call : Dict Value × Dict Text)
    → lookup k (forward ctx call).0 ≡ (if has_key k ctx then none else lookup k call.0)
unfolding forward has_key lookup
lookup-forward_from k [] call = refl
lookup-forward_from k ((ctx_arg, name) ∷ rest) call =
    lookup-forward_from k rest (forward_one ctx_arg name call)
    ∙ ground (arith, lookup-forward_one k ctx_arg name call.0 call.1)

-- After the forwarding, a configured context argument is never among the tool's arguments, whatever
-- its value was, and every other argument is as before.
pub lookup-forward :
    (k : Text) (ctx : Dict Text) (args : Dict Value) (headers : Dict Text)
    → lookup k (forward ctx (args, headers)).0 ≡ (if has_key k ctx then none else lookup k args)
lookup-forward k ctx args headers = lookup-forward_from k ctx (args, headers)

-- The keys of a Go map are distinct.
abbrev pub HasDistinctKeys : Dict Text → Type 0
HasDistinctKeys [] = Unit
HasDistinctKeys ((k, v) ∷ rest) = All (λ p. p.0 ≢ k) rest × HasDistinctKeys rest

-- The headers that the arguments of a call ask for: one for each configured argument that is a
-- non-empty string, under a non-empty name.
abbrev pub wanted : Text → Option Value → Dict Text
wanted name (some (str val)) = if not (name == []) && not (val == []) then (name, val) ∷ [] else []
wanted name _ = []

abbrev pub asked : Dict Value → Dict Text → Dict Text
asked args [] = []
asked args ((ctx_arg, name) ∷ rest) = wanted name (lookup ctx_arg args) ++ asked args rest

set_all-append :
    (xs ys headers : Dict Text) → set_all (xs ++ ys) headers ≡ set_all ys (set_all xs headers)
unfolding set_all
set_all-append [] ys headers = refl
set_all-append ((k, v) ∷ xs) ys headers = set_all-append xs ys (insert (canonical k) v headers)

set_header-eq-set_all :
    (name : Text) (raw : Value) (headers : Dict Text)
    → set_header name raw headers ≡ set_all (wanted name (some raw)) headers
unfolding set_header set_all
set_header-eq-set_all name (str val) headers = ground arith
set_header-eq-set_all name _ headers = refl

asked-remove :
    (a : Text) (args : Dict Value) (ctx : Dict Text)
    → All (λ p. p.0 ≢ a) ctx
    → asked (remove a args) ctx ≡ asked args ctx
asked-remove a args [] _ = refl
asked-remove a args ((k, name) ∷ rest) (other, h) =
    let same : lookup k (remove a args) ≡ lookup k args =
      ground (arith, lookup-remove a k args, eq_iff a k) in
    rw (same, asked-remove a args rest h)

headers-forward_one :
    (ctx_arg name : Text) (args : Dict Value) (headers : Dict Text)
    → (forward_one ctx_arg name (args, headers)).1
      ≡ set_all (wanted name (lookup ctx_arg args)) headers
unfolding forward_one
headers-forward_one ctx_arg name args headers = elim (Option-cases (lookup ctx_arg args)) [
  | inl missing ↦ rw (missing, forward_one) (unfold set_all in refl)
  | inr (raw, found) ↦ rw (found, forward_one) (set_header-eq-set_all name raw headers)
]

asked-forward_one :
    (ctx_arg name : Text) (args : Dict Value) (headers : Dict Text) (ctx : Dict Text)
    → All (λ p. p.0 ≢ ctx_arg) ctx
    → asked (forward_one ctx_arg name (args, headers)).0 ctx ≡ asked args ctx
unfolding forward_one
asked-forward_one ctx_arg name args headers ctx h = elim (Option-cases (lookup ctx_arg args)) [
  | inl missing ↦ rw (missing, forward_one) refl
  | inr (raw, found) ↦ rw (found, forward_one) (asked-remove ctx_arg args ctx h)
]

headers-forward_from :
    (ctx : Dict Text) (call : Dict Value × Dict Text)
    → HasDistinctKeys ctx
    → (forward ctx call).1 ≡ set_all (asked call.0 ctx) call.1
unfolding forward
headers-forward_from [] call _ = unfold set_all in refl
headers-forward_from ((ctx_arg, name) ∷ rest) call (fresh, h) =
    headers-forward_from rest (forward_one ctx_arg name call) h
    ∙ ap₂ set_all (asked-forward_one ctx_arg name call.0 call.1 rest fresh)
        (headers-forward_one ctx_arg name call.0 call.1)
    ∙ sym (set_all-append (wanted name (lookup ctx_arg call.0)) (asked call.0 rest) call.1)

-- Taking arguments out while they are forwarded loses none: the headers are those that the
-- arguments, as they were before the loop, ask for, set in the loop's order.
pub headers-forward :
    (ctx : Dict Text) (args : Dict Value) (headers : Dict Text)
    → HasDistinctKeys ctx
    → (forward ctx (args, headers)).1 ≡ set_all (asked args ctx) headers
headers-forward ctx args headers h = headers-forward_from ctx (args, headers) h
