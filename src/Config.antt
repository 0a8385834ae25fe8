-- ===== src/Config.antt =====
-- config/: the configurations of clients, servers and loggers, and the files that they are read from.
pub mod Settings
pub mod Toml
pub mod Parser
pub mod Holds
pub mod Usable
pub mod Tables
pub mod Reading
pub mod Kept
