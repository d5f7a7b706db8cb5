-- ===== src/Plugin/Args.antt =====
-- plugin/handler.go: the arguments of a tool call, from the host's strings to what the server gets.
pub mod Value
pub mod Coerce
pub mod ToolNames
pub mod IncludeFields
pub mod Context
