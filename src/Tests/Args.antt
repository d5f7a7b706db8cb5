-- ===== src/Tests/Args.antt =====
-- Runs of the argument handling and of the configuration's expansion.
use mcp_plugin.Base.Tests.{ℕ, ◌≡◌, ◌≢◌, ◌++◌, ap, refl, false, none, some, List, [], ◌∷◌, arith}
use mcp_plugin.Base.Text.{
  Text, codes, to_lower, index, is_ascii, Unicode, ◌==◌, slice_from, split_at, until, trim_space,
}
use mcp_plugin.Base.Dict.{Dict, lookup, has_key, insert}
use mcp_plugin.Base.Int.{pos, parse_int, parse_pos, digits, digits_from}
use mcp_plugin.Config.Expand.{expand_env, is_word, template_open, template_close}
use mcp_plugin.Config.Expand.Chunks.{Chunk, lit, ref, render, meaning, IsName, IsWellFormed}
use mcp_plugin.Config.Expand.Render.{expand_env-render, expand_env-chunked}
use mcp_plugin.Mcp.Types.Property.{SchemaProp}
use mcp_plugin.Mcp.Headers.{
  canonical, outbound, set_all, all_token, is_token, is_upper, canonical_from, cased, is_lower,
}
use mcp_plugin.Mcp.Headers.Laws.{lookup-outbound, canonical-canonical}
use mcp_plugin.Plugin.Args.Value.{Value, str, int, arr, nil, cons}
use mcp_plugin.Plugin.Args.Coerce.{coerce, coerce_to, as_integer}
use mcp_plugin.Plugin.Args.Coerce.Kinds.{Meets, coerce-Meets}
use mcp_plugin.Plugin.Args.ToolNames.{resolve, resolve_tool_name_args, resolve_value, tool_of}
use mcp_plugin.Plugin.Args.ToolNames.Laws.{lookup-resolve_tool_name_args, resolve-spellings}
use mcp_plugin.Plugin.Args.IncludeFields.{
  include_fields, parse_opt_in_fields, sanitize_include_fields, field_names, is_all, sanitize_value,
  filter_array, apply_filter, store_filtered, keep_valid, contains,
}
use mcp_plugin.Plugin.Args.IncludeFields.Laws.{
  IsFiltered, parse_opt_in_fields-ascii, parse_opt_in_fields_panics,
  sanitize_include_fields-IsFiltered,
}
use mcp_plugin.Plugin.Args.Context.{forward}
use mcp_plugin.Plugin.Args.Context.Laws.{asked, lookup-forward, headers-forward}
use mcp_plugin.Plugin.Types.{Entry}
use mcp_plugin.Tests.World.{unicode, decoders, add_entry}

abbrev home : Text → Text
home name = codes "secret"

abbrev bearer : List Chunk
bearer = lit (codes "{:") ∷ ref (codes "T") ∷ lit (codes "}") ∷ []

abbrev first : ℕ → Text → ℕ
first d [] = d
first d (c ∷ s) = c

abbrev second : ℕ → Text → ℕ
second d [] = d
second d (c ∷ s) = first d s

-- No reference starts at the bytes of the literals.
abbrev Open : Text → Type 0
Open s =
    (name after : Text) → IsName name → s ≢ template_open ++ (name ++ (template_close ++ after))

lone_brace : (s : Text) → Open (0x7B ∷ 0x3A ∷ s)
lone_brace s name after is e = absurd (omega (arith, ap (second 0) e))

no_brace : (c : ℕ) (s : Text) → c ≢ 0x7B → Open (c ∷ s)
no_brace c s ne name after is e = ne (ap (first 0) e)

expand_env-render_example : expand_env home (render bearer) ≡ codes "{:secret}"
unfolding expand_env is_word
expand_env-render_example = expand_env-render home bearer (
  (lone_brace _, (no_brace _ _ (λ e. absurd (omega arith)), tt)),
  (((λ e. cc), (refl, tt)), ((no_brace _ _ (λ e. absurd (omega arith)), tt), tt)),
)

expand_env-chunked_example :
    (cs : List Chunk) × IsWellFormed cs
    × (render cs ≡ codes "{{env.T}")
    × (expand_env home (codes "{{env.T}") ≡ meaning home cs)
expand_env-chunked_example = expand_env-chunked home (codes "{{env.T}")

coerced : coerce decoders (codes "42") (codes "Integer") false ≡ int (pos 42)
unfolding coerce coerce_to ◌==◌ to_lower as_integer parse_int parse_pos digits digits_from
coerced = refl

coerce-Meets_example :
    Meets decoders
      (codes "42")
      (codes "integer")
      (coerce decoders (codes "42") (codes "Integer") false)
unfolding to_lower
coerce-Meets_example = coerce-Meets decoders (codes "42") (codes "Integer") false refl

abbrev known : Dict Entry
known = (codes "crm__add", add_entry (some 7)) ∷ []

abbrev planned : Dict Value
planned = (codes "tool_name", str (codes "crm__add")) ∷ []

lookup-resolve_tool_name_args_example :
    lookup (codes "tool_name") (resolve_tool_name_args known planned) ≡ some (str (codes "add"))
unfolding lookup ◌==◌ resolve_value resolve tool_of
lookup-resolve_tool_name_args_example =
    lookup-resolve_tool_name_args known (codes "tool_name") planned

resolve-spellings_example :
    (resolve known (codes "crm__add") ≡ some (codes "add"))
    × (resolve known (codes "mcp__crm__add") ≡ some (codes "add"))
unfolding lookup ◌==◌ index
resolve-spellings_example =
    resolve-spellings known (codes "mcp") (codes "crm__add") (add_entry (some 7)) refl refl refl

abbrev described : Text
described = codes "A subset of: city, phone."

abbrev fields_prop : SchemaProp
fields_prop = record { type = codes "array"; nullable = false; description = described; raw = [] }

parsed : parse_opt_in_fields unicode described ≡ some (codes "city" ∷ codes "phone" ∷ [])
unfolding parse_opt_in_fields index to_lower slice_from field_names split_at until ◌==◌ trim_space
parsed = refl

parse_opt_in_fields-ascii_example :
    (valid : List Text) × (parse_opt_in_fields unicode described ≡ some valid)
unfolding is_ascii
parse_opt_in_fields-ascii_example = parse_opt_in_fields-ascii unicode described refl

-- U+023A has two bytes, its lower case three.
abbrev growing : Unicode
growing = record { lower = λ s. 0xE2 ∷ 0xB1 ∷ 0xA5 ∷ codes "a subset of:"; trim = λ s. s }

parse_opt_in_fields_panics_example :
    parse_opt_in_fields growing (0xC8 ∷ 0xBA ∷ codes "a subset of:") ≡ none
unfolding index to_lower
parse_opt_in_fields_panics_example =
    parse_opt_in_fields_panics growing (0xC8 ∷ 0xBA ∷ codes "a subset of:") 3 refl (omega arith)

abbrev chosen : Dict Value
chosen = (include_fields, arr (cons (str (codes "phone")) (cons (str (codes "rogue")) nil))) ∷ []

abbrev kept : Dict Value
kept = (include_fields, arr (cons (str (codes "phone")) nil)) ∷ []

sanitize_include_fields-IsFiltered_example :
    IsFiltered unicode (codes "city" ∷ codes "phone" ∷ []) kept
unfolding lookup ◌==◌ is_all sanitize_include_fields sanitize_value filter_array parse_opt_in_fields
    index to_lower slice_from apply_filter field_names split_at until trim_space store_filtered
    keep_valid contains insert
sanitize_include_fields-IsFiltered_example =
    sanitize_include_fields-IsFiltered unicode ((include_fields, fields_prop) ∷ []) chosen kept
      fields_prop (str (codes "phone")) (cons (str (codes "rogue")) nil) (codes "city")
      (codes "phone" ∷ []) refl refl refl parsed refl

abbrev context : Dict Text
context = (codes "user", codes "X-User") ∷ []

abbrev called : Dict Value
called = (codes "user", str (codes "ann")) ∷ (codes "note", str (codes "hi")) ∷ []

lookup-forward_example : lookup (codes "user") (forward context (called, [])).0 ≡ none
unfolding has_key ◌==◌
lookup-forward_example = lookup-forward (codes "user") context called []

headers-forward_example : (forward context (called, [])).1 ≡ set_all (asked called context) []
headers-forward_example = headers-forward context called [] (tt, tt)

lookup-outbound_example :
    lookup
      (codes "Accept")
      (outbound ((codes "accept", codes "a") ∷ []) ((codes "ACCEPT", codes "b") ∷ []) [])
    ≡ some (codes "b")
unfolding ◌==◌ canonical all_token is_token is_upper canonical_from cased is_lower
lookup-outbound_example =
    lookup-outbound (codes "Accept") ((codes "accept", codes "a") ∷ [])
      ((codes "ACCEPT", codes "b") ∷ []) []

canonical-canonical_example : canonical (canonical (codes "x-user")) ≡ canonical (codes "x-user")
canonical-canonical_example = canonical-canonical (codes "x-user")
