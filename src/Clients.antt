-- ===== src/Clients.antt =====
-- clients/: calls and their results, the queue of messages, and the connection to a server.
pub mod RequestIdGenerator
pub mod CallFuture
pub mod CallList
pub mod ReceivedMessageProcessor
pub mod SentMessageQueue
pub mod MessageSender
pub mod ReconnectionTimer
pub mod ClientConnector
pub mod ClientImpl
pub mod ClientBuilder
