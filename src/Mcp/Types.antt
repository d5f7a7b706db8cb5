-- ===== src/Mcp/Types.antt =====
-- mcp/types.go: the types of JSON-RPC and MCP, and how they are decoded.
pub mod Property
pub mod Tools
pub mod Payloads
pub mod Results
