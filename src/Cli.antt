-- ===== src/Cli.antt =====
-- The command line program, crates/cli/src.
pub mod Tunnel
pub mod Agent
pub mod Keystore
pub mod Grind
pub mod Config
pub mod Commands
pub mod Output
pub mod Main
