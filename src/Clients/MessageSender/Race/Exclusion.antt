-- ===== src/Clients/MessageSender/Race/Exclusion.antt =====
-- message_sender.h: the messages that are being written while two threads take turns.
use cpp_msgpack_rpc.Clients.SentMessageQueue.{SentMessageQueue}
