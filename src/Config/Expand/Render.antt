-- ===== src/Config/Expand/Render.antt =====
-- What `expand_env` makes of a header value.
use mathlib.Core.Path.{subst}
use mcp_plugin.Base.Tests.{
  ℕ, ◌+◌, ◌≡◌, refl, sym, ap, ◌∙◌, none, some, List, [], ◌∷◌, ◌++◌, append_assoc, arith, length,
  length-append, suc, zero, ◌<◌, inl, inr, Option-cases,
}
use mcp_plugin.Base.Text.{Text, codes}
use mcp_plugin.Config.Expand.{
  template_open, template_close, match_template, expand_from, expand_env,
}
use mcp_plugin.Config.Expand.Chunks.{
  Chunk, lit, ref, render, meaning, IsName, IsLiteral, IsWellFormed, match_template-ref,
  match_template-Starts, match_template-literal, literal-match_template,
}

module _ (getenv : Text → Text) where
  expand_from-skip : (p s : Text) → expand_from getenv (length p) (p ++ s) ≡ expand_from getenv 0 s
  unfolding expand_from
  expand_from-skip [] s = refl
  expand_from-skip (c ∷ p) s = expand_from-skip p s

  expand_from-none :
      (c : ℕ) (s : Text)
      → match_template (c ∷ s) ≡ none
      → expand_from getenv 0 (c ∷ s) ≡ c ∷ expand_from getenv 0 s
  unfolding expand_from
  expand_from-none c s h = rw (h, expand_from)

  expand_from-some :
      (c : ℕ) (s name : Text)
      → match_template (c ∷ s) ≡ some name
      → expand_from getenv 0 (c ∷ s) ≡ getenv name ++ expand_from getenv (length name + 7) s
  unfolding expand_from
  expand_from-some c s name h = rw (h, expand_from)

  expand_from-lit :
      (s rest : Text)
      → IsLiteral s rest
      → expand_from getenv 0 (s ++ rest) ≡ s ++ expand_from getenv 0 rest
  expand_from-lit [] rest _ = refl
  expand_from-lit (c ∷ s) rest (h, hs) =
      expand_from-none c (s ++ rest) (match_template-literal c (s ++ rest) h)
      ∙ ap (λ (t : Text). c ∷ t) (expand_from-lit s rest hs)

  -- what follows the first byte of a reference
  abbrev ref_tail : Text → Text
  ref_tail name = codes "{env." ++ (name ++ template_close)

  length-ref_tail : (name : Text) → length (ref_tail name) ≡ length name + 7
  length-ref_tail name = omega (arith, length-append name template_close)

  expand_from-ref :
      (name rest : Text)
      → IsName name
      → expand_from getenv 0 (template_open ++ (name ++ (template_close ++ rest)))
        ≡ getenv name ++ expand_from getenv 0 rest
  expand_from-ref name rest h =
      expand_from-some b'{' (codes "{env." ++ (name ++ (template_close ++ rest))) name
        (match_template-ref name rest h)
      ∙ ap (λ (t : Text). getenv name ++ t)
          (ap (λ (t : Text). expand_from getenv (length name + 7) (codes "{env." ++ t))
              (sym (append_assoc name template_close rest))
            ∙ rw (← length-ref_tail name) (expand_from-skip (ref_tail name) rest))

  -- Take a header value as literal text and references, where a reference is `{{env.`, a non-empty
  -- run of ASCII letters, digits and underscores, and `}}`, and no reference starts inside literal
  -- text. Expanding it replaces each reference by the variable's value, and changes nothing else:
  -- neither the literal text, braces included, nor the values that were put in, which are not read
  -- again.
  pub expand_env-render :
      (cs : List Chunk) → IsWellFormed cs → expand_env getenv (render cs) ≡ meaning getenv cs
  unfolding expand_env
  expand_env-render [] _ = unfold expand_from in refl
  expand_env-render (lit s ∷ cs) (h, hs) =
      expand_from-lit s (render cs) h ∙ ap (λ (t : Text). s ++ t) (expand_env-render cs hs)
  expand_env-render (ref name ∷ cs) (h, hs) =
      expand_from-ref name (render cs) h
      ∙ ap (λ (t : Text). getenv name ++ t) (expand_env-render cs hs)

-- Every text is such a sequence.
abbrev Chunked : Text → Type 0
Chunked s = (cs : List Chunk) × IsWellFormed cs × (render cs ≡ s)

chunked : (n : ℕ) (s : Text) → length s < n → Chunked s
chunked zero s h = absurd (omega (h, arith))
chunked (suc n) [] h = ([], tt, refl)
chunked (suc n) (c ∷ s) h = elim (Option-cases (match_template (c ∷ s))) [
  | inl none_here ↦
      let (cs, formed, is) = chunked n s (omega (h, arith)) in
      (
        lit (c ∷ []) ∷ cs,
        (
          (subst (λ t. IsLiteral (c ∷ []) t) (sym is) (literal-match_template c s none_here, tt)),
          formed,
        ),
        ap (λ (t : Text). c ∷ t) is,
      )
  | inr (name, found) ↦
      let (is, after, at) = match_template-Starts (c ∷ s) name found in
      let (cs, formed, same) = chunked n after (shorter n c s name after at h) in
      (
        ref name ∷ cs,
        (is, formed),
        ap (λ (t : Text). template_open ++ (name ++ (template_close ++ t))) same ∙ sym at,
      )
]
  where
    shorter :
        (n c : ℕ) (s name after : Text)
        → c ∷ s ≡ template_open ++ (name ++ (template_close ++ after))
        → length (c ∷ s) < suc n
        → length after < n
    shorter n c s name after at h =
        omega (arith, h, ap length at, length-append name (template_close ++ after))

module _ (getenv : Text → Text) where
  -- Every header value can be taken apart in this way, so that expanding it gives its literal text
  -- with each reference replaced, whatever braces it has.
  pub expand_env-chunked :
      (s : Text)
      → (cs : List Chunk) × IsWellFormed cs
        × (render cs ≡ s)
        × (expand_env getenv s ≡ meaning getenv cs)
  expand_env-chunked s =
      let (cs, formed, is) = chunked (suc (length s)) s (omega arith) in
      (cs, formed, is, ap (expand_env getenv) (sym is) ∙ expand_env-render getenv cs formed)
