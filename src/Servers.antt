-- ===== src/Servers.antt =====
-- servers/: the connections of a server, the server itself and its builder.
pub mod ServerConnection
pub mod ServerImpl
pub mod ServerBuilder
