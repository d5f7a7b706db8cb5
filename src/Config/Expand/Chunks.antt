-- ===== src/Config/Expand/Chunks.antt =====
-- Header values as literal text and references, and where `envRe` matches them.
use mathlib.Core.Path.{subst, ap₂}
use mathlib.Core.Option.{some-injective}
use mcp_plugin.Base.Tests.{
  ℕ, ◌≡◌, refl, sym, ap, ◌∙◌, ◌≢◌, true, none, some, List, [], ◌∷◌, ◌++◌, arith, All, inl, inr,
  Bool-cases, Option-cases,
}
use mcp_plugin.Base.Text.{
  Text, cut_prefix, cut_prefix-append, has_prefix-append, has_prefix, append_of_cut_prefix,
}
use mcp_plugin.Config.Expand.{
  is_word, word_of, after_word, template_open, template_close, template_name, match_template,
}

-- A header value is a sequence of these.
pub data Chunk : Type 0 where
  lit ref : Text → Chunk

abbrev pub render : List Chunk → Text
render [] = []
render (lit s ∷ cs) = s ++ render cs
render (ref name ∷ cs) = template_open ++ (name ++ (template_close ++ render cs))

abbrev pub meaning : (Text → Text) → List Chunk → Text
meaning env [] = []
meaning env (lit s ∷ cs) = s ++ meaning env cs
meaning env (ref name ∷ cs) = env name ++ meaning env cs

-- A variable's name is a non-empty run of word bytes.
abbrev pub IsName : Text → Type 0
IsName name = (name ≢ []) × All (λ c. is_word c ≡ true) name

-- At none of the bytes of `s`, a literal with `rest` behind it, does a reference start.
abbrev pub IsLiteral : Text → Text → Type 0
IsLiteral [] rest = Unit
IsLiteral (c ∷ s) rest =
    ((name after : Text)
      → IsName name
      → c ∷ (s ++ rest) ≢ template_open ++ (name ++ (template_close ++ after)))
    × IsLiteral s rest

abbrev pub IsWellFormed : List Chunk → Type 0
IsWellFormed [] = Unit
IsWellFormed (lit s ∷ cs) = IsLiteral s (render cs) × IsWellFormed cs
IsWellFormed (ref name ∷ cs) = IsName name × IsWellFormed cs

word_of-append :
    (name s : Text)
    → All (λ c. is_word c ≡ true) name
    → word_of (name ++ (template_close ++ s)) ≡ name
unfolding word_of
word_of-append [] s _ = refl
word_of-append (c ∷ name) s (w, h) = ground (arith, word_of-append name s h)

after_word-append :
    (name s : Text)
    → All (λ c. is_word c ≡ true) name
    → after_word (name ++ (template_close ++ s)) ≡ template_close ++ s
unfolding after_word
after_word-append [] s _ = refl
after_word-append (c ∷ name) s (w, h) = ground (arith, after_word-append name s h)

pub match_template-ref :
    (name s : Text)
    → IsName name
    → match_template (template_open ++ (name ++ (template_close ++ s))) ≡ some name
unfolding match_template template_name
match_template-ref [] s (n, _) = absurd (n refl)
match_template-ref (c ∷ name) s (_, h) = rw (
  cut_prefix-append template_open ((c ∷ name) ++ (template_close ++ s)),
  word_of-append (c ∷ name) s h,
  after_word-append (c ∷ name) s h,
  has_prefix-append template_close s,
)

word_of-word :
    (s : Text) → All (λ c. is_word c ≡ true) (word_of s) × (s ≡ word_of s ++ after_word s)
unfolding word_of after_word
word_of-word [] = (tt, refl)
word_of-word (c ∷ s) = elim (Bool-cases (is_word c)) [
  | inl word ↦ rw word ((word, (word_of-word s).0), ap (λ (t : Text). c ∷ t) (word_of-word s).1)
  | inr other ↦ rw other (tt, refl)
]

-- Where `envRe` matches, a reference starts.
abbrev pub Starts : Text → Text → Type 0
Starts s name =
    IsName name × (after : Text) × (s ≡ template_open ++ (name ++ (template_close ++ after)))

unclosed :
    (c : ℕ) (w after : Text)
    → cut_prefix after template_close ≡ none
    → template_name (c ∷ w) after ≡ none
unfolding template_name has_prefix
unclosed c w after h = rw (h, has_prefix)

closed :
    (c : ℕ) (w after rest : Text)
    → cut_prefix after template_close ≡ some rest
    → template_name (c ∷ w) after ≡ some (c ∷ w)
unfolding template_name has_prefix
closed c w after rest h = rw (h, has_prefix)

template_name-some :
    (w after name : Text)
    → template_name w after ≡ some name
    → (w ≡ name) × (w ≢ []) × (rest : Text) × (after ≡ template_close ++ rest)
unfolding template_name
template_name-some [] after name h = absurd (cc h)
template_name-some (c ∷ w) after name h = elim (Option-cases (cut_prefix after template_close)) [
  | inl missing ↦ absurd (cc (h, unclosed c w after missing))
  | inr (rest, found) ↦ (
    some-injective (c ∷ w) name (sym (closed c w after rest found) ∙ h),
    λ e. cc,
    rest,
    append_of_cut_prefix after template_close rest found,
  )
]

not_opened : (s : Text) → cut_prefix s template_open ≡ none → match_template s ≡ none
unfolding match_template
not_opened s h = rw (h, match_template)

opened :
    (s rest : Text)
    → cut_prefix s template_open ≡ some rest
    → match_template s ≡ template_name (word_of rest) (after_word rest)
unfolding match_template
opened s rest h = rw (h, match_template)

append-Starts :
    (s rest name after : Text)
    → s ≡ template_open ++ rest
    → (word_of rest ≡ name) × (word_of rest ≢ []) × (after_word rest ≡ template_close ++ after)
    → Starts s name
append-Starts s rest name after at (word, some_word, closing) = (
  (λ e. some_word (word ∙ e), subst (All (λ c. is_word c ≡ true)) word (word_of-word rest).0),
  after,
  at
      ∙ ap (λ (t : Text). template_open ++ t)
          ((word_of-word rest).1 ∙ ap₂ (λ (x y : Text). x ++ y) word closing),
)

pub match_template-Starts : (s name : Text) → match_template s ≡ some name → Starts s name
match_template-Starts s name h = elim (Option-cases (cut_prefix s template_open)) [
  | inl missing ↦ absurd (cc (h, not_opened s missing))
  | inr (rest, found) ↦
      let (word, some_word, after, closing) =
        template_name-some (word_of rest) (after_word rest) name (sym (opened s rest found) ∙ h) in
      append-Starts s rest name after (append_of_cut_prefix s template_open rest found)
        (word, some_word, closing)
]

pub match_template-literal :
    (c : ℕ) (s : Text)
    → ((name after : Text)
        → IsName name
        → c ∷ s ≢ template_open ++ (name ++ (template_close ++ after)))
    → match_template (c ∷ s) ≡ none
match_template-literal c s h = elim (Option-cases (match_template (c ∷ s))) [
  | inl none_here ↦ none_here
  | inr (name, found) ↦
      let (is, after, at) = match_template-Starts (c ∷ s) name found in absurd (h name after is at)
]

pub literal-match_template :
    (c : ℕ) (s : Text)
    → match_template (c ∷ s) ≡ none
    → (name after : Text) → IsName name
    → c ∷ s ≢ template_open ++ (name ++ (template_close ++ after))
literal-match_template c s none_here name after is at =
    cc (none_here, ap match_template at, match_template-ref name after is)
