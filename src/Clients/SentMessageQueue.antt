-- ===== src/Clients/SentMessageQueue.antt =====
-- sent_message_queue.h: the messages to be sent, oldest first, requests with their IDs.
use cpp_msgpack_rpc.Common.{ℕ, Option, none, some, List, [], ◌∷◌, ◌++◌}

abbrev pub SentMessageQueue : Type 0 → Type 0
SentMessageQueue Message = List (Message × Option ℕ)

module _ {Message : Type 0} where
  abbrev pub next : SentMessageQueue Message → Option Message × Option ℕ
  next [] = (none, none)
  next ((message, id) ∷ q) = (some message, id)

  -- `none` where the queue is empty: `std::queue::pop` is undefined there.
  abbrev pub pop : SentMessageQueue Message → Option (SentMessageQueue Message)
  pop [] = none
  pop (m ∷ q) = some q

  abbrev pub push : SentMessageQueue Message → Message → Option ℕ → SentMessageQueue Message
  push q message id = q ++ (message, id) ∷ []
