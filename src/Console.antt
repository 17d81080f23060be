-- ===== src/Console.antt =====
-- app/console: the commands. Flags, processes and terminals are what a command is given of them.
pub mod LineFilter
pub mod EnvFile
pub mod Confirm
pub mod Commands
pub mod Reporter
pub mod TestCommand
pub mod SecretCommand
