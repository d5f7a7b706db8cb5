-- ===== src/Plugin/Handler.antt =====
-- plugin/handler.go: the handler that the host calls.
pub mod Execute
pub mod Refresh
pub mod Calls
