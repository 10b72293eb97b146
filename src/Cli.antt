-- ===== src/Cli.antt =====
-- The launcher's command line.
pub mod ForwardCommand
pub mod Main
