-- ===== src/Cli.antt =====
-- src/cli: dates of the command line.
pub mod Date
pub mod Time
mod Tests
