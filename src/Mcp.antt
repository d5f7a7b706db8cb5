-- ===== src/Mcp.antt =====
-- The mcp package: JSON-RPC and MCP types, the SSE stream, the HTTP headers and the client.
pub mod Types
pub mod Headers
pub mod Sse
pub mod Client
pub mod Streamable
