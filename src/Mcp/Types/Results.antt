-- ===== src/Mcp/Types/Results.antt =====
-- mcp/types.go `rpcError.String`, and mcp/client.go `structuredPayload`.
use mcp_plugin.Base.Tests.{none, some, [], ◌∷◌, ◌++◌, nat_eq, ltb, if◌then◌else◌, length, ◌&&◌}
use mcp_plugin.Base.Text.{Text, codes, ◌==◌}
use mcp_plugin.Json.Decode.{Scanner, decode_string}

-- `rpcError`; the code is not rendered, and an absent `Data` is empty.
pub record RpcError : Type 0 where
  pub message : Text
  pub details : Text

-- `Data` as shown: a JSON string without its quotes and escapes, anything else as it came.
unfoldable pub details_text : Scanner → Text → Text
details_text shape [] = []
details_text shape (c ∷ d) =
    let shown : Text = elim (decode_string shape [] (c ∷ d)) [ none ↦ c ∷ d | some s ↦ s ] in
    if nat_eq c 34 && ltb 1 (length (c ∷ d)) then shown else c ∷ d

-- `rpcError.String`
unfoldable pub error_string : Scanner → RpcError → Text
error_string shape e = elim e.details [
  | [] ↦ e.message
  | c ∷ d ↦ e.message ++ (codes ": " ++ details_text shape (c ∷ d))
]

-- `structuredPayload`
unfoldable pub structured_payload : Text → Text
structured_payload [] = []
structured_payload (c ∷ s) = if (c ∷ s) == codes "null" then [] else c ∷ s
