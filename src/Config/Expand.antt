-- ===== src/Config/Expand.antt =====
-- config/config.go: `envRe`, `expandEnv` and `expandHeaders`. The environment is an argument.
pub mod Chunks
pub mod Render
use mcp_plugin.Base.Tests.{
  ℕ, zero, suc, ◌+◌, Bool, ◌&&◌, ◌||◌, Option, none, some, List, [], ◌∷◌, ◌++◌, leb, nat_eq,
  if◌then◌else◌, length, ◌>>=◌,
}
use mcp_plugin.Base.Text.{Text, codes, cut_prefix, has_prefix}
use mcp_plugin.Base.Dict.{Dict}

-- `ServerConfig`
pub record ServerConfig : Type 0 where
  pub server : Text
  pub url : Text
  pub headers : Dict Text
  pub context_headers : Dict Text

-- `\w` of Go's regexp: ASCII letters, digits and the underscore.
unfoldable pub is_word : ℕ → Bool
is_word c =
    (leb b'0' c && leb c b'9')
    || (leb b'A' c && leb c b'Z')
    || nat_eq c b'_'
    || (leb b'a' c && leb c b'z')

-- The longest run of word bytes, and what follows it.
unfoldable pub word_of : Text → Text
unfolding is_word
word_of [] = []
word_of (c ∷ s) = if is_word c then c ∷ word_of s else []

unfoldable pub after_word : Text → Text
unfolding is_word
after_word [] = []
after_word (c ∷ s) = let rest = after_word s in if is_word c then rest else c ∷ s

abbrev pub template_open : Text
template_open = codes "{{env."

abbrev pub template_close : Text
template_close = codes "}}"

-- The captured name, if it is not empty and the closing braces follow.
unfoldable pub template_name : Text → Text → Option Text
template_name [] after = none
template_name (c ∷ w) after = if has_prefix after template_close then some (c ∷ w) else none

-- `envRe` at the start of the text: the name that its group captures. `\w+` takes the whole run,
-- since `}` is no word byte.
unfoldable pub match_template : Text → Option Text
match_template s = do
  rest ← cut_prefix s template_open
  template_name (word_of rest) (after_word rest)

module _ (getenv : Text → Text) where
  -- `ReplaceAllStringFunc`: leftmost matches, none overlapping; `skip` counts the bytes of a match
  -- that are still to be passed over.
  unfoldable pub expand_from : ℕ → Text → Text
  expand_from skip [] = []
  expand_from (suc skip) (c ∷ s) = expand_from skip s
  expand_from zero (c ∷ s) = elim (match_template (c ∷ s)) [
    | none ↦ c ∷ expand_from 0 s
    | some name ↦ getenv name ++ expand_from (length name + 7) s
  ]

  -- `expandEnv`
  unfoldable pub expand_env : Text → Text
  expand_env s = expand_from 0 s

  abbrev pub expand_values : Dict Text → Dict Text
  expand_values [] = []
  expand_values ((k, v) ∷ m) = (k, expand_env v) ∷ expand_values m

  -- `expandHeaders`
  unfoldable pub expand_headers : List ServerConfig → List ServerConfig
  expand_headers [] = []
  expand_headers (cfg ∷ cfgs) =
      (record cfg { headers = expand_values cfg.headers }) ∷ expand_headers cfgs
