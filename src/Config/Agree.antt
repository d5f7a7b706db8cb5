-- ===== src/Config/Agree.antt =====
-- config/config.go: `Parse` and `Load` read one list of servers in the same way.
use mcp_plugin.Base.Tests.{
  ◌≡◌, ◌≢◌, inl, inr, true, false, some, List, [], ◌∷◌, Result, ok, err, Option-cases, Bool-cases,
}
use mcp_plugin.Base.Text.{Text, codes, ◌==◌, eq_refl, eq_of_test}
use mcp_plugin.Json.Decode.{Scanner, obj, is_field, fold_from, set_fields, decode_struct}
use mcp_plugin.Config.Expand.{ServerConfig}
use mcp_plugin.Config.Parse.{PluginConfig, decode_servers, set_config_field, parse, load}

-- The configuration of a list of servers, or the error of `Parse`.
abbrev pub as_config : Result (List ServerConfig) → Result PluginConfig
as_config (ok cfgs) = ok (record { servers = cfgs })
as_config (err e) = err (codes "parse config")

is_field_self : (key : Text) → is_field key key ≡ true
unfolding is_field
is_field_self key = eq_refl (fold_from 0 key)

module _ (shape : Scanner) (getenv : Text → Text) where
  abbrev variable : Text
  variable = getenv (codes "OPENTALON_MCP_SERVERS")

  nonempty : (t : Text) → t ≢ [] → (t == []) ≡ false
  nonempty t set = elim (Bool-cases (t == [])) [
    | inl empty ↦ absurd (set (eq_of_test t [] empty))
    | inr full ↦ full
  ]

  -- `Parse` of an object whose one member is "servers" gives the servers that `Load` gives where the
  -- environment has that member's text; it fails where `Load` fails.
  pub parse-load :
      (config_json : Text)
      → variable ≢ []
      → shape config_json ≡ some (obj ((codes "servers", variable) ∷ []))
      → parse shape getenv config_json ≡ as_config (load shape getenv)
  unfolding parse load decode_struct set_fields set_config_field
  parse-load config_json set is = elim (Option-cases (decode_servers shape variable)) [
    | inl bad ↦ rw (is, parse, is_field_self (codes "servers"), bad, load, nonempty variable set)
    | inr (cfgs, good) ↦
        rw (is, parse, is_field_self (codes "servers"), good, load, nonempty variable set)
  ]
