-- ===== src/Clients/MessageSender/Race.antt =====
-- The steps of `send_next`, `handle_sent_message` and `handle_disconnection`, run by two threads that
-- take turns: a user's thread that calls `send`, and the thread of the connections, which also makes
-- and loses them. The queue has a mutex for each of its operations, and `is_sending_` is atomic, but
-- nothing holds them together. A connection is known by its number.
pub mod Advancing
pub mod Exclusion
use cpp_msgpack_rpc.Common.{
  ℕ, suc, ◌==◌, ◌≡◌, refl, Bool, true, false, Option, none, some, List, [], ◌∷◌, ◌++◌,
  if◌then◌else◌,
}
use cpp_msgpack_rpc.Clients.SentMessageQueue.{SentMessageQueue, next, pop, push}

-- Where a thread stands.
pub data Position (Message : Type 0) : Type 0 where
  -- In `send_next`: at the load of `is_sending_`, behind it, and behind `get_connection`.
  enters loaded : Position Message
  has_connection : ℕ → Position Message
  -- With the message that `next` has returned, before the exchange, and behind the exchange.
  holds : ℕ → Message → Position Message
  claims : ℕ → Message → Position Message
  -- In the callback for a sent message: before `pop`, and before the store to `is_sending_`.
  completed popped : Position Message
  -- Behind the reset of the connection that was closed, before `handle_disconnection`.
  closed : Position Message
  finished : Position Message

pub record Shared (Message : Type 0) : Type 0 where
  pub queue : SentMessageQueue Message
  pub is_sending : Bool
  pub connection : Option ℕ
  -- The number of the next connection.
  pub next_connection : ℕ
  -- What the open connection took from `async_send`, newest last, and what of that is still being
  -- written. A connection that is closed ignores the call, and its writes are not reported as sent.
  pub written : List Message
  pub in_flight : List Message

pub record Threads (Message : Type 0) : Type 0 where
  pub user : Position Message
  pub transport : Position Message
  pub shared : Shared Message

-- Who goes on. The user's thread calls `send` again when it is free. The thread of the connections,
-- when it is free, takes up the end of a write, a new connection, or the close of the connection.
pub data Turn (Message : Type 0) : Type 0 where
  user_sends : Message → Option ℕ → Turn Message
  user_steps transport_steps write_ends connects disconnects : Turn Message

abbrev pub is_current : ℕ → Option ℕ → Bool
is_current c none = false
is_current c (some d) = d == c

module _ {Message : Type 0} where
  hold : ℕ → Option Message → Position Message
  hold c none = finished
  hold c (some m) = holds c m

  found : Option ℕ → Position Message
  found none = finished
  found (some c) = has_connection c

  -- `async_send` of the connection c.
  async_send : ℕ → Message → Shared Message → Shared Message
  async_send c m s =
      if is_current c s.connection
      then record s { written = s.written ++ m ∷ []; in_flight = s.in_flight ++ m ∷ [] }
      else s

  pop_sent : Shared Message → Option (Position Message × Shared Message)
  pop_sent s = elim (pop s.queue) [ none ↦ none | some q ↦ some (popped, record s { queue = q }) ]

  -- One step of a thread. `none` is the undefined `pop` of an empty queue.
  unfoldable pub advance :
      Position Message → Shared Message → Option (Position Message × Shared Message)
  unfolding hold found async_send pop_sent
  advance enters s = some (if s.is_sending then finished else loaded, s)
  advance loaded s = some (found s.connection, s)
  advance (has_connection c) s = some (hold c (next s.queue).0, s)
  advance (holds c m) s =
      some (if s.is_sending then finished else claims c m, record s { is_sending = true })
  advance (claims c m) s = some (finished, async_send c m s)
  advance completed s = pop_sent s
  advance popped s = some (enters, record s { is_sending = false })
  advance closed s = some (finished, record s { is_sending = false })
  advance finished s = some (finished, s)

  -- The thread of the connection takes up a completion when it is free; `none` if there is none.
  end_write : Threads Message → Position Message → List Message → Option (Threads Message)
  end_write t finished (m ∷ ms) =
      some (record t { transport = completed; shared = record t.shared { in_flight = ms } })
  end_write t _ _ = none

  -- `send` begins: its message is in the queue.
  begin_send : Threads Message → Position Message → Message → Option ℕ → Option (Threads Message)
  begin_send t finished m id =
      some
        (record t { user = enters; shared = record t.shared { queue = push t.shared.queue m id } })
  begin_send t _ m id = none

  -- ClientConnector::on_connection, which calls `send_next`, when there is no connection.
  begin_connection : Threads Message → Position Message → Option ℕ → Option (Threads Message)
  begin_connection t finished none = some (record t {
    transport = enters;
    shared = record t.shared {
      connection = some t.shared.next_connection;
      next_connection = suc t.shared.next_connection;
    };
  })
  begin_connection t _ _ = none

  -- The reset of the connection in ClientConnector::on_connection_closed.
  end_connection : Threads Message → Position Message → Option ℕ → Option (Threads Message)
  end_connection t finished (some c) = some (record t {
    transport = closed;
    shared = record t.shared { connection = none; in_flight = [] };
  })
  end_connection t _ _ = none

  unfoldable pub turn : Threads Message → Turn Message → Option (Threads Message)
  unfolding end_write begin_send begin_connection end_connection
  turn t (user_sends m id) = begin_send t t.user m id
  turn t connects = begin_connection t t.transport t.shared.connection
  turn t disconnects = end_connection t t.transport t.shared.connection
  turn t user_steps = elim (advance t.user t.shared) [
    | none ↦ none
    | some (p, s) ↦ some (record t { user = p; shared = s })
  ]
  turn t transport_steps = elim (advance t.transport t.shared) [
    | none ↦ none
    | some (p, s) ↦ some (record t { transport = p; shared = s })
  ]
  turn t write_ends = end_write t t.transport t.shared.in_flight

  unfoldable pub schedule : Threads Message → List (Turn Message) → Option (Threads Message)
  schedule t [] = some t
  schedule t (x ∷ xs) = elim (turn t x) [ none ↦ none | some u ↦ schedule u xs ]

-- The user's thread reads the first message; the other one sends it and takes it off the queue;
-- then the user's thread sends it once more, and that completion takes the second message off.
abbrev unlucky : {Message : Type 0} → List (Turn Message)
unlucky =
    user_steps ∷ user_steps ∷ user_steps ∷ transport_steps ∷ transport_steps ∷ transport_steps
    ∷ transport_steps ∷ transport_steps ∷ write_ends ∷ transport_steps ∷ transport_steps
    ∷ user_steps ∷ user_steps ∷ transport_steps ∷ write_ends ∷ transport_steps ∷ []

module _ {Message : Type 0} where
  -- A user's call of `send` has queued its message, and the connection has just been made.
  abbrev pub both_enter : SentMessageQueue Message → Threads Message
  both_enter q = record {
    user = enters;
    transport = enters;
    shared = record {
      queue = q;
      is_sending = false;
      connection = some 0;
      next_connection = 1;
      written = [];
      in_flight = [];
    };
  }

  -- With any two messages at the head of the queue there is a schedule of two calls of `send_next`
  -- and the callbacks that follow in which the first message is written twice, and the second one
  -- leaves the queue without being written.
  pub send_next_loses :
      (first second : Message) (rest : SentMessageQueue Message) (i j : Option ℕ)
      → (turns : List (Turn Message)) × (end : Threads Message) × (schedule
            (both_enter ((first, i) ∷ (second, j) ∷ rest))
            turns
          ≡ some end)
        × (end.shared.written ≡ first ∷ first ∷ [])
        × (end.shared.queue ≡ rest)
  unfolding schedule turn advance
  send_next_loses first second rest i j = (unlucky, _, refl, refl, refl)
