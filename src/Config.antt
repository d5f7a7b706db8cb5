-- ===== src/Config.antt =====
-- config/config.go: the server configuration and the `{{env.X}}` templates in header values.
pub mod Expand
pub mod Parse
pub mod Agree
