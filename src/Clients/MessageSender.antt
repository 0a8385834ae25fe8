-- ===== src/Clients/MessageSender.antt =====
-- message_sender.h: one message at a time is given to the connection, and leaves the queue when
-- it has been sent. Here each operation runs to its end before the next one starts.
pub mod Delivery
pub mod Race
use cpp_msgpack_rpc.Common.{ℕ, Bool, true, false, Option, none, some, List, [], ◌∷◌, if◌then◌else◌}
use cpp_msgpack_rpc.Clients.SentMessageQueue.{SentMessageQueue, next, pop, push}

pub record MessageSender (Message : Type 0) : Type 0 where
  pub sent_messages : SentMessageQueue Message
  pub is_sending : Bool

module _ {Message : Type 0} where
  abbrev pub new_sender : MessageSender Message
  new_sender = record { sent_messages = []; is_sending = false }

  start_sending : MessageSender Message → Option Message → MessageSender Message × Option Message
  start_sending s none = (s, none)
  start_sending s (some message) = (record s { is_sending = true }, some message)

  -- With what is passed to `async_send`, if anything. `connected` is whether `get_connection`
  -- finds a connection.
  pub send_next : Bool → MessageSender Message → MessageSender Message × Option Message
  unfolding start_sending
  send_next connected s =
      if s.is_sending
      then (s, none)
      else if connected
      then start_sending s (next s.sent_messages).0
      else (s, none)

  pub send :
      Bool → MessageSender Message → Message → Option ℕ → MessageSender Message × Option Message
  unfolding send_next
  send connected s message id =
      send_next connected (record s { sent_messages = push s.sent_messages message id })

  -- `none` is the undefined `pop` of an empty queue.
  pub handle_sent_message : MessageSender Message → Option (MessageSender Message)
  handle_sent_message s = elim (pop s.sent_messages) [
    | none ↦ none
    | some q ↦ some (record { sent_messages = q; is_sending = false })
  ]

  pub handle_disconnection : MessageSender Message → MessageSender Message
  handle_disconnection s = record s { is_sending = false }
