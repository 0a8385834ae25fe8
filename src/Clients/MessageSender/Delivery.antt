-- ===== src/Clients/MessageSender/Delivery.antt =====
-- message_sender.h: what a client sends over its connections, when no two operations overlap.
use cpp_msgpack_rpc.Common.{
  ℕ, ◌≡◌, refl, ap, ◌∙◌, Bool, true, false, Option, none, some, List, [], ◌∷◌, ◌++◌, map,
  append_assoc, map-append, arith,
}
use cpp_msgpack_rpc.Clients.SentMessageQueue.{SentMessageQueue, push}
use cpp_msgpack_rpc.Clients.MessageSender.{
  MessageSender, new_sender, send_next, send, handle_sent_message, handle_disconnection,
}

-- The sender with what is around it: the connection, the message that it is writing, the
-- messages that have been written, and those that were passed to `send`.
pub record World (Message : Type 0) : Type 0 where
  pub sender : MessageSender Message
  pub connected : Bool
  pub in_flight : Option Message
  pub delivered : List Message
  pub submitted : List Message

pub data Event (Message : Type 0) : Type 0 where
  -- `send` is called, a connection is made, the message in flight has been written, the
  -- connection is closed.
  submits : Message → Option ℕ → Event Message
  connects completes disconnects : Event Message

abbrev pub world_start : {Message : Type 0} → World Message
world_start = record {
  sender = new_sender;
  connected = false;
  in_flight = none;
  delivered = [];
  submitted = [];
}

module _ {Message : Type 0} where
  -- A message that is passed to `async_send` is in flight.
  abbrev fly : Option Message → Option Message → Option Message
  fly old none = old
  fly old (some m) = some m

  abbrev resumed : World Message → MessageSender Message × Option Message → World Message
  resumed w (s, m) = record w { sender = s; in_flight = fly w.in_flight m }

  -- The callback for a sent message, as `ClientImpl::start` sets it. A completion needs a message
  -- in flight; `none` is an undefined `pop`.
  complete : World Message → Option Message → Option (World Message)
  complete w none = some w
  complete w (some m) = elim (handle_sent_message w.sender) [
    | none ↦ none
    | some s ↦ some (
        resumed (record w { in_flight = none; delivered = w.delivered ++ m ∷ [] })
          (send_next w.connected s))
  ]

  pub step : World Message → Event Message → Option (World Message)
  step w (submits m id) =
      some
        (resumed (record w { submitted = w.submitted ++ m ∷ [] }) (send w.connected w.sender m id))
  step w connects = some (resumed (record w { connected = true }) (send_next true w.sender))
  step w completes = complete w w.in_flight
  step w disconnects =
      some
        (record w { connected = false; in_flight = none; sender = handle_disconnection w.sender })

  pub run : World Message → List (Event Message) → Option (World Message)
  run w [] = some w
  run w (e ∷ es) = elim (step w e) [ none ↦ none | some v ↦ run v es ]

  abbrev pub queued : World Message → List Message
  queued w = map (λ m. m.0) w.sender.sent_messages

  abbrev Flying : Bool → Bool → List Message → Option Message → Type 0
  Flying sending connected q none = (sending ≡ false) × (connected ≡ true → q ≡ [])
  Flying sending connected [] (some m) = ⊥
  Flying sending connected (x ∷ q) (some m) = (sending ≡ true) × (connected ≡ true) × (m ≡ x)

  -- Nothing is lost or reordered, the message in flight is the head of the queue, and a connection
  -- does not stand idle while a message waits.
  pub record IsOrderly (w : World Message) : Type 0 where
    pub conserved : w.delivered ++ queued w ≡ w.submitted
    pub flying : Flying w.sender.is_sending w.connected (queued w) w.in_flight

  -- A sender at rest that takes the next message.
  resumed-IsOrderly :
      (w : World Message) (q : SentMessageQueue Message)
      → w.sender.sent_messages ≡ q
      → w.sender.is_sending ≡ false
      → w.in_flight ≡ none
      → w.delivered ++ queued w ≡ w.submitted
      → IsOrderly (resumed w (send_next w.connected w.sender))
  unfolding send_next
  resumed-IsOrderly w [] e idle calm c = ground arith
  resumed-IsOrderly w ((m, id) ∷ q) e idle calm c = ground arith

  queued-push :
      (w : World Message) (m : Message) (id : Option ℕ)
      → w.delivered ++ queued w ≡ w.submitted
      → w.delivered ++ map (λ (x : Message × Option ℕ). x.0) (push w.sender.sent_messages m id)
        ≡ w.submitted ++ m ∷ []
  queued-push w m id c = rw (
    map-append (λ (x : Message × Option ℕ). x.0) w.sender.sent_messages ((m, id) ∷ []),
    ← append_assoc w.delivered (queued w) (m ∷ []),
    c,
  )

  head_of_queue :
      (w : World Message) (x y : Message) (id : Option ℕ) (q : SentMessageQueue Message)
      → w.in_flight ≡ some x
      → w.sender.sent_messages ≡ (y, id) ∷ q
      → IsOrderly w
      → x ∷ map (λ (z : Message × Option ℕ). z.0) q ≡ queued w
  head_of_queue w x y id q e eq v = ground (arith, v.flying)

  -- While a message is in flight the sender only queues.
  send_next_busy :
      (connected : Bool) (s : MessageSender Message)
      → s.is_sending ≡ true
      → send_next connected s ≡ (s, none)
  unfolding send_next
  send_next_busy connected s h = ground arith

  connect-IsOrderly :
      (w : World Message) (f : Option Message) (q : SentMessageQueue Message)
      → w.in_flight ≡ f
      → w.sender.sent_messages ≡ q
      → IsOrderly w
      → IsOrderly (resumed (record w { connected = true }) (send_next true w.sender))
  connect-IsOrderly w none q e eq v =
      resumed-IsOrderly (record w { connected = true }) q eq (ground (arith, v.flying)) e
        v.conserved
  connect-IsOrderly w (some x) [] e eq v = absurd (ground (arith, v.flying))
  connect-IsOrderly w (some x) (y ∷ q) e eq v =
      rw (send_next_busy true w.sender (ground (arith, v.flying)))
        (record { conserved = v.conserved; flying = ground (arith, v.flying) })

  submit-IsOrderly :
      (w : World Message) (m : Message) (id : Option ℕ) (f : Option Message)
      (q : SentMessageQueue Message)
      → w.in_flight ≡ f
      → w.sender.sent_messages ≡ q
      → IsOrderly w
      → IsOrderly (
          resumed (record w { submitted = w.submitted ++ m ∷ [] }) (send w.connected w.sender m id))
  unfolding send
  submit-IsOrderly w m id none q e eq v =
      resumed-IsOrderly
        (record w {
          submitted = w.submitted ++ m ∷ [];
          sender = record w.sender { sent_messages = push w.sender.sent_messages m id };
        })
        _ refl (ground (arith, v.flying)) e (queued-push w m id v.conserved)
  submit-IsOrderly w m id (some x) [] e eq v = absurd (ground (arith, v.flying))
  submit-IsOrderly w m id (some x) (y ∷ q) e eq v =
      rw
        (send_next_busy w.connected
          (record w.sender { sent_messages = push w.sender.sent_messages m id })
          (ground (arith, v.flying)))
        (record { conserved = queued-push w m id v.conserved; flying = ground (arith, v.flying) })

  abbrev pub StaysOrderly : Option (World Message) → Type 0
  StaysOrderly r = (v : World Message) × (r ≡ some v) × IsOrderly v

  complete-StaysOrderly :
      (w : World Message) (f : Option Message) (q : SentMessageQueue Message)
      → w.in_flight ≡ f
      → w.sender.sent_messages ≡ q
      → IsOrderly w
      → StaysOrderly (complete w f)
  unfolding complete handle_sent_message
  complete-StaysOrderly w none q e eq v = (w, refl, v)
  complete-StaysOrderly w (some x) [] e eq v = absurd (ground (arith, v.flying))
  complete-StaysOrderly w (some x) ((y, id) ∷ q) e eq v = (
    _,
    rw (eq, complete) refl,
    resumed-IsOrderly
        (record w {
          in_flight = none;
          delivered = w.delivered ++ x ∷ [];
          sender = record { sent_messages = q; is_sending = false };
        })
        q refl refl refl
        (append_assoc w.delivered (x ∷ []) (map (λ (z : Message × Option ℕ). z.0) q)
          ∙ (ap (λ (l : List Message). w.delivered ++ l) (head_of_queue w x y id q e eq v)
              ∙ v.conserved)),
  )

  pub step-StaysOrderly :
      (w : World Message) (e : Event Message) → IsOrderly w → StaysOrderly (step w e)
  unfolding step
  step-StaysOrderly w (submits m id) v =
      (_, refl, submit-IsOrderly w m id w.in_flight w.sender.sent_messages refl refl v)
  step-StaysOrderly w connects v =
      (_, refl, connect-IsOrderly w w.in_flight w.sender.sent_messages refl refl v)
  step-StaysOrderly w completes v =
      complete-StaysOrderly w w.in_flight w.sender.sent_messages refl refl v
  step-StaysOrderly w disconnects v = (
    _,
    refl,
    unfold handle_disconnection in record { conserved = v.conserved; flying = (refl, λ h. cc) },
  )
