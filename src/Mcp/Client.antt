-- ===== src/Mcp/Client.antt =====
-- mcp/client.go: the client of one server.
pub mod Transport
pub mod Connect
pub mod Calls
pub mod Leaks
pub mod Net
pub mod Ready
