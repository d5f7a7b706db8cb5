-- ===== src/Plugin/Args/Context.antt =====
-- plugin/handler.go, in `Execute`: the credential header, and the context arguments that are
-- forwarded as headers and taken out of the tool's arguments.
pub mod Laws
use mcp_plugin.Base.Tests.{Bool, not, ◌&&◌, Option, none, some, List, [], ◌∷◌, if◌then◌else◌}
use mcp_plugin.Base.Text.{Text, ◌==◌}
use mcp_plugin.Base.Dict.{Dict, lookup, insert, remove}
use mcp_plugin.Mcp.Headers.{canonical}
use mcp_plugin.Plugin.Args.Value.{Value, null, str, float, int, bool, arr, obj}

-- `CredentialHeader` of the host
pub record CredentialHeader : Type 0 where
  pub header : Text
  pub value : Text

-- The headers that a call starts with; none is the nil map.
unfoldable pub credential_headers : Option CredentialHeader → Dict Text
credential_headers none = []
credential_headers (some cred) =
    if cred.header == [] then [] else insert (canonical cred.header) cred.value []

-- A present context argument sets its header if it is a non-empty string.
unfoldable pub set_header : Text → Value → Dict Text → Dict Text
set_header name (str val) headers =
    if not (name == []) && not (val == []) then insert (canonical name) val headers else headers
set_header name _ headers = headers

-- One round of the loop over `ContextHeaders`.
unfoldable pub forward_one : Text → Text → Dict Value × Dict Text → Dict Value × Dict Text
forward_one ctx_arg name (args, headers) = elim (lookup ctx_arg args) [
  | none ↦ (args, headers)
  | some raw ↦ (remove ctx_arg args, set_header name raw headers)
]

unfoldable pub forward : Dict Text → Dict Value × Dict Text → Dict Value × Dict Text
forward [] call = call
forward ((ctx_arg, name) ∷ rest) call = forward rest (forward_one ctx_arg name call)
