-- ===== src/Commands.antt =====
-- src/commands: what the subcommands of the program do.
pub mod Run
pub mod Show
pub mod Build
