-- ===== src/Transport.antt =====
-- transport/: connections, the acceptor, and the search for a server that answers.
pub mod StateMachine
pub mod Connection
pub mod AsyncConnect
pub mod Backends
pub mod Acceptor
