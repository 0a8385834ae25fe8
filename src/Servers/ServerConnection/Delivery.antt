-- ===== src/Servers/ServerConnection/Delivery.antt =====
-- The threads of the executor and the transport take turns at the steps of a connection of a
-- server: a step is what is done under the mutex, or one store of `is_sending_`.
use cpp_msgpack_rpc.Common.{
  ℕ, zero, suc, ◌≤◌, ◌≡◌, refl, Bool, true, false, Option, none, some, List, [], ◌∷◌, ◌++◌,
  append_assoc, append-nil, length, length-append, Option-cases, inl, inr, arith,
}
use cpp_msgpack_rpc.Servers.ServerConnection.{
  ServerConnection, new_connection, push_response, take_next, send_next_if_exists, clear_sending,
}

pub record System (Message : Type 0) : Type 0 where
  pub connection : ServerConnection Message
  -- The calls of `send_next_if_exists` that threads are about to make.
  pub calls : ℕ
  -- The messages whose writes have not ended, and all that were passed to `async_send`.
  pub in_flight : List Message
  pub written : List Message

pub data Turn (Message : Type 0) : Type 0 where
  responds : Message → Turn Message
  sends : Turn Message
  write_ends : Turn Message

abbrev flag : Bool → ℕ
flag true = 1
flag false = 0

module _ {Message : Type 0} where
  abbrev pub new_system : System Message
  new_system = record { connection = new_connection; calls = 0; in_flight = []; written = [] }

  unfoldable pub sent :
      System Message → ℕ → ServerConnection Message × Option Message → System Message
  sent s n (c, none) = record s { connection = c; calls = n }
  sent s n (c, some m) = record {
    connection = c;
    calls = n;
    in_flight = s.in_flight ++ (m ∷ []);
    written = s.written ++ (m ∷ []);
  }

  unfoldable pub call_once : System Message → ℕ → Option (System Message)
  unfolding sent
  call_once s zero = none
  call_once s (suc n) = some (sent s n (send_next_if_exists true s.connection))

  unfoldable pub end_write : System Message → List Message → Option (System Message)
  end_write s [] = none
  end_write s (m ∷ ms) =
      some
        (record s { connection = clear_sending s.connection; calls = suc s.calls; in_flight = ms })

  -- `none` if the turn is not possible.
  unfoldable pub turn : System Message → Turn Message → Option (System Message)
  unfolding call_once end_write
  turn s (responds m) =
      some (record s { connection = push_response s.connection m; calls = suc s.calls })
  turn s sends = call_once s s.calls
  turn s write_ends = end_write s s.in_flight

  unfoldable pub schedule : System Message → List (Turn Message) → Option (System Message)
  schedule s [] = some s
  schedule s (t ∷ ts) = elim (turn s t) [ none ↦ none | some u ↦ schedule u ts ]

  -- The responses of the requests, in the order in which they were put in the queue.
  pub responses : List (Turn Message) → List Message
  responses [] = []
  responses (responds m ∷ ts) = m ∷ responses ts
  responses (sends ∷ ts) = responses ts
  responses (write_ends ∷ ts) = responses ts

  -- `ms` have been put in the queue so far: they are written or wait, one message at most is in
  -- flight, and while messages wait, one is in flight or a thread is about to look.
  pub record IsOrderly (ms : List Message) (s : System Message) : Type 0 where
    pub in_order : s.written ++ s.connection.message_queue ≡ ms
    pub held : length s.in_flight ≡ flag s.connection.is_sending
    pub awake : s.connection.is_sending ≡ false → s.calls ≡ 0 → s.connection.message_queue ≡ []

  call_once-IsOrderly :
      (s : System Message) (ms : List Message) (n : ℕ) (q : List Message) (u : System Message)
      → s.connection.message_queue ≡ q
      → s.calls ≡ n
      → call_once s n ≡ some u
      → IsOrderly ms s
      → IsOrderly ms u
  unfolding call_once send_next_if_exists take_next
  call_once-IsOrderly s ms zero q u eq en e v = cc
  call_once-IsOrderly s ms (suc n) [] u eq en e v = ground (arith, v.in_order, v.held)
  call_once-IsOrderly s ms (suc n) (m ∷ q) u eq en e v = ground (
    arith,
    v.in_order,
    v.held,
    append_assoc s.written (m ∷ []) q,
    length-append s.in_flight (m ∷ []),
  )

  end_write-IsOrderly :
      (s : System Message) (ms fs : List Message) (u : System Message)
      → s.in_flight ≡ fs
      → end_write s fs ≡ some u
      → IsOrderly ms s
      → IsOrderly ms u
  unfolding end_write clear_sending
  end_write-IsOrderly s ms [] u ef e v = cc
  end_write-IsOrderly s ms (m ∷ fs) u ef e v = ground (arith, v.in_order, v.held)

  turn-IsOrderly :
      (s : System Message) (ms : List Message) (t : Turn Message) (u : System Message)
      → turn s t ≡ some u
      → IsOrderly ms s
      → IsOrderly (ms ++ responses (t ∷ [])) u
  unfolding turn push_response responses
  turn-IsOrderly s ms (responds m) u e v =
      ground (arith, v.in_order, v.held, append_assoc s.written s.connection.message_queue (m ∷ []))
  turn-IsOrderly s ms sends u e v =
      rw (append-nil ms)
        (call_once-IsOrderly s ms s.calls s.connection.message_queue u refl refl e v)
  turn-IsOrderly s ms write_ends u e v =
      rw (append-nil ms) (end_write-IsOrderly s ms s.in_flight u refl e v)

  responses_cons :
      (t : Turn Message) (ts : List (Turn Message))
      → responses (t ∷ []) ++ responses ts ≡ responses (t ∷ ts)
  unfolding responses
  responses_cons (responds m) ts = refl
  responses_cons sends ts = refl
  responses_cons write_ends ts = refl

  schedule-IsOrderly :
      (s : System Message) (ms : List Message) (ts : List (Turn Message)) (u : System Message)
      → schedule s ts ≡ some u
      → IsOrderly ms s
      → IsOrderly (ms ++ responses ts) u
  unfolding schedule responses
  schedule-IsOrderly s ms [] u e v = rw (append-nil ms) (record {
    in_order = ground (arith, v.in_order);
    held = ground (arith, v.held);
    awake = ground (arith, v.awake);
  })
  schedule-IsOrderly s ms (t ∷ ts) u e v = elim (Option-cases (turn s t)) [
    | inl stuck ↦ absurd (ground arith)
    | inr (w, a) ↦
        rw (← responses_cons t ts, ← append_assoc ms (responses (t ∷ [])) (responses ts))
          (schedule-IsOrderly w (ms ++ responses (t ∷ [])) ts u (ground arith)
            (turn-IsOrderly s ms t w a v))
  ]

  -- However the threads take turns, the messages that are passed to the connection and then those
  -- that wait are the responses, each of them once, in the order in which they were put in the
  -- queue; one write at most is under way; and when none is and no thread is about to look for a
  -- message, none waits.
  pub schedule-written :
      (ts : List (Turn Message)) (s : System Message)
      → schedule new_system ts ≡ some s
      → (s.written ++ s.connection.message_queue ≡ responses ts)
        × (length s.in_flight ≤ 1)
        × (s.in_flight ≡ [] → s.calls ≡ 0 → s.connection.message_queue ≡ [])
  schedule-written ts s e =
      let v =
        schedule-IsOrderly new_system [] ts s e
          (record { in_order = refl; held = refl; awake = λ a b. refl }) in
      (v.in_order, ground (arith, v.held), λ idle. v.awake (ground (arith, v.held)))
