-- ===== src/Servers/ServerConnection.antt =====
-- servers/server_connection.h: the responses of one connection of a server are written one after
-- another. A received message is handed to the executor, so `on_request` runs on any thread.
pub mod Delivery
use cpp_msgpack_rpc.Common.{
  Bool, true, false, Option, none, some, List, [], ◌∷◌, ◌++◌, if◌then◌else◌,
}
use cpp_msgpack_rpc.Messages.Parsed.{
  ParsedRequest, ParsedNotification, ParsedMessage, a_request, a_notification, a_response,
}

-- What `on_received` does with a message: a call on a thread of the executor, or the close of the
-- connection.
pub data Received (Object : Type 0) : Type 0 where
  invokes_request : ParsedRequest Object → Received Object
  invokes_notification : ParsedNotification Object → Received Object
  closes : Received Object

unfoldable pub on_received : {Object : Type 0} → ParsedMessage Object → Received Object
on_received (a_request r) = invokes_request r
on_received (a_notification n) = invokes_notification n
on_received (a_response _) = closes

pub record ServerConnection (Message : Type 0) : Type 0 where
  pub message_queue : List Message
  pub is_sending : Bool

module _ {Message : Type 0} where
  abbrev pub new_connection : ServerConnection Message
  new_connection = record { message_queue = []; is_sending = false }

  -- `on_request` up to the end of its block: the response is put in the queue.
  unfoldable pub push_response : ServerConnection Message → Message → ServerConnection Message
  push_response c m = record c { message_queue = c.message_queue ++ (m ∷ []) }

  unfoldable pub take_next :
      Bool → ServerConnection Message → List Message → ServerConnection Message × Option Message
  take_next alive c [] = (c, none)
  take_next alive c (m ∷ ms) =
      (record { message_queue = ms; is_sending = true }, if alive then some m else none)

  -- With whether the connection still exists, and the message passed to its `async_send`.
  unfoldable pub send_next_if_exists :
      Bool → ServerConnection Message → ServerConnection Message × Option Message
  unfolding take_next
  send_next_if_exists alive c =
      if c.is_sending then (c, none) else take_next alive c c.message_queue

  -- `on_sent` up to its call of `send_next_if_exists`.
  unfoldable pub clear_sending : ServerConnection Message → ServerConnection Message
  clear_sending c = record c { is_sending = false }
