-- ===== src/Plugin/Registry.antt =====
-- plugin/registry.go: the registry of actions.
pub mod Meta
pub mod Fetch
pub mod Build
pub mod Live
pub mod Backoff
pub mod Loops
