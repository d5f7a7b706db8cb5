-- ===== src/Mcp/Sse.antt =====
-- mcp/sse.go and `decodeSSEResponse` of mcp/streamable.go: event streams and the connection that
-- hands their responses to the callers.
pub mod Frames
pub mod Conn
pub mod Post
pub mod Waiting
