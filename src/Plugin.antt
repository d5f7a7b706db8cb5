-- ===== src/Plugin.antt =====
-- The plugin package: what a tool call does to its arguments, the registry of actions and the
-- handler that the host calls.
pub mod Types
pub mod Args
pub mod Upstream
pub mod Clients
pub mod Registry
pub mod Handler
