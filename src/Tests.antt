-- ===== src/Tests.antt =====
-- Concrete runs: the theorems applied to concrete values.
pub mod World
pub mod Args
pub mod Registry
pub mod Execute
pub mod Refresh
pub mod Mcp
pub mod Types
pub mod Streamable
pub mod Cache
pub mod Loops
pub mod Waiting
pub mod Net
pub mod Clients
pub mod Process
