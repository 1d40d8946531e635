-- ===== src/Cli.antt =====
-- The crate `cli`: the commands of the terminal.
pub mod Pipeline
pub mod Stats
