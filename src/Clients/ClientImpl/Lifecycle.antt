-- ===== src/Clients/ClientImpl/Lifecycle.antt =====
-- client_impl.h: the operations of a client in any order.
use cpp_msgpack_rpc.Common.{
  ℕ, ◌≡◌, refl, inl, inr, Bool, true, false, ◌&&◌, Option, none, some, List, [], ◌∷◌, Bool-cases,
  Result, ok, err,
}
use cpp_msgpack_rpc.Executors.GeneralExecutor
use cpp_msgpack_rpc.Executors.GeneralExecutor.{
  GeneralExecutor, StartError, is_running, new_executor,
}
use cpp_msgpack_rpc.Clients.CallList.{CallList, CreateError, Created, create}
use cpp_msgpack_rpc.Clients.MessageSender.{MessageSender, send}
use cpp_msgpack_rpc.Clients.ClientConnector.{ClientConnector, Effect}
use cpp_msgpack_rpc.Clients.ClientConnector
use cpp_msgpack_rpc.Clients.ClientImpl.{
  ClientImpl, Answer, throws, faults, has_connection, runs, stopped_error, start, started,
  start_parts, stop, stop_parts, async_call, call_checked, created_call, notify, notify_serialized,
}

abbrev pub is_returned : {A : Type 0} → Answer A → Bool
is_returned faults = false
is_returned _ = true

module _ {Exn Object Message : Type 0} where
  -- A client holds all its parts until it is stopped, and none of them afterwards.
  pub data IsWhole (c : ClientImpl Exn Object Message) : Type 0 where
    whole :
        (e : GeneralExecutor Exn) (k : ClientConnector) (l : CallList Object)
        (s : MessageSender Message)
        → c.executor ≡ some e
        → c.connector ≡ some k
        → c.call_list ≡ some l
        → c.sender ≡ some s
        → c.is_stopped ≡ false
        → IsWhole c
    emptied : c.executor ≡ none → c.is_started ≡ true → c.is_stopped ≡ true → IsWhole c

  -- An operation keeps that, and follows no null pointer.
  abbrev Keeps : {A : Type 0} → ClientImpl Exn Object Message × Answer A → Type 0
  Keeps r = IsWhole r.0 × (is_returned r.1 ≡ true)

  module _ (c : ClientImpl Exn Object Message) (e : GeneralExecutor Exn) (k : ClientConnector)
      (l : CallList Object) (s : MessageSender Message) (ee : c.executor ≡ some e)
      (ek : c.connector ≡ some k) (el : c.call_list ≡ some l) (es : c.sender ≡ some s)
      (running : c.is_stopped ≡ false) where
    started-Keeps :
        (j : ClientConnector) (effects : List Effect)
        (r : GeneralExecutor Exn × Result StartError (Unit {0}))
        → Keeps (started (record c { is_started = true; connector = some j }) effects r)
    unfolding started
    started-Keeps j effects (f, ok u) = (whole f j l s refl refl el es running, refl)
    started-Keeps j effects (f, err x) = (whole f j l s refl refl el es running, refl)

    start-Keeps_whole : (can_spawn : Bool) → Keeps (start can_spawn c)
    unfolding start
    start-Keeps_whole can_spawn = elim (Bool-cases c.is_started) [
      | inl again ↦ rw (again, start) (whole e k l s ee ek el es running, refl)
      | inr first ↦
          rw (first, start, ek, ee, start_parts)
            (started-Keeps (ClientConnector.start k).0 (ClientConnector.start k).1
              (GeneralExecutor.start can_spawn e))
    ]

    stop-Keeps_whole : Keeps (stop c)
    unfolding stop
    stop-Keeps_whole = elim (Bool-cases c.is_started) [
      | inl begun ↦ rw (begun, stop, running, ek, ee, stop_parts) (emptied refl begun refl, refl)
      | inr fresh ↦ rw (fresh, stop) (whole e k l s ee ek el es running, refl)
    ]

    created-Keeps :
        (r : CallList Object × Result CreateError (Created Message)) → Keeps (created_call c r)
    unfolding created_call
    created-Keeps (m, err x) = (whole e k m s ee ek refl es running, refl)
    created-Keeps (m, ok created) =
        rw (es, created_call)
          (
            whole e k m (send (has_connection c.connector) s created.message (some created.id)).0 ee
                ek refl refl running,
            refl,
          )

    async_call-Keeps_whole :
        (now : ℕ) (serialize : ℕ → Option Message) → Keeps (async_call c now serialize)
    unfolding async_call
    async_call-Keeps_whole now serialize = elim (Bool-cases (runs c.executor)) [
      | inl yes_runs ↦
          rw (yes_runs, async_call, el, call_checked) (created-Keeps (create l now serialize))
      | inr stands ↦ rw (stands, async_call) (whole e k l s ee ek el es running, refl)
    ]

    serialized_notify-Keeps : (serialized : Option Message) → Keeps (notify_serialized c serialized)
    unfolding notify_serialized
    serialized_notify-Keeps none = (whole e k l s ee ek el es running, refl)
    serialized_notify-Keeps (some m) =
        rw (es, notify_serialized)
          (whole e k l (send (has_connection c.connector) s m none).0 ee ek el refl running, refl)

    notify-Keeps_whole : (serialized : Option Message) → Keeps (notify c serialized)
    unfolding notify
    notify-Keeps_whole serialized = elim (Bool-cases (runs c.executor)) [
      | inl begun ↦ rw (begun, notify) (serialized_notify-Keeps serialized)
      | inr stands ↦ rw (stands, notify) (whole e k l s ee ek el es running, refl)
    ]

  -- After `stop` the operations throw or return at once.
  module _ (c : ClientImpl Exn Object Message) (ee : c.executor ≡ none) where
    async_call_stopped :
        (now : ℕ) (serialize : ℕ → Option Message)
        → async_call c now serialize ≡ (c, throws stopped_error)
    unfolding async_call
    async_call_stopped now serialize = rw (ee, async_call)

    notify_stopped : (serialized : Option Message) → notify c serialized ≡ (c, throws stopped_error)
    unfolding notify
    notify_stopped serialized = rw (ee, notify)

  module _ (c : ClientImpl Exn Object Message) (ee : c.executor ≡ none)
      (begun : c.is_started ≡ true) (over : c.is_stopped ≡ true) where
    start-Keeps_empty : (can_spawn : Bool) → Keeps (start can_spawn c)
    unfolding start
    start-Keeps_empty can_spawn = rw (begun, start) (emptied ee refl over, refl)

    stop-Keeps_empty : Keeps (stop c)
    unfolding stop
    stop-Keeps_empty = rw (begun, stop, over) (emptied ee refl refl, refl)

  start-Keeps :
      {c : ClientImpl Exn Object Message} (can_spawn : Bool) → IsWhole c → Keeps (start can_spawn c)
  start-Keeps {c} can_spawn (whole e k l s ee ek el es r) =
      start-Keeps_whole c e k l s ee ek el es r can_spawn
  start-Keeps {c} can_spawn (emptied ee b o) = start-Keeps_empty c ee b o can_spawn

  stop-Keeps : {c : ClientImpl Exn Object Message} → IsWhole c → Keeps (stop c)
  stop-Keeps {c} (whole e k l s ee ek el es r) = stop-Keeps_whole c e k l s ee ek el es r
  stop-Keeps {c} (emptied ee b o) = stop-Keeps_empty c ee b o

  async_call-Keeps :
      {c : ClientImpl Exn Object Message} (now : ℕ) (serialize : ℕ → Option Message)
      → IsWhole c
      → Keeps (async_call c now serialize)
  async_call-Keeps {c} now serialize (whole e k l s ee ek el es r) =
      async_call-Keeps_whole c e k l s ee ek el es r now serialize
  async_call-Keeps {c} now serialize (emptied ee b o) =
      rw (async_call_stopped c ee now serialize) (emptied ee b o, refl)

  notify-Keeps :
      {c : ClientImpl Exn Object Message} (serialized : Option Message)
      → IsWhole c
      → Keeps (notify c serialized)
  notify-Keeps {c} serialized (whole e k l s ee ek el es r) =
      notify-Keeps_whole c e k l s ee ek el es r serialized
  notify-Keeps {c} serialized (emptied ee b o) =
      rw (notify_stopped c ee serialized) (emptied ee b o, refl)

-- A call of an operation of a client.
pub data Operation (Message : Type 0) : Type 0 where
  starts : Bool → Operation Message
  stops : Operation Message
  calls : ℕ → (ℕ → Option Message) → Operation Message
  notifies : Option Message → Operation Message

module _ {Exn Object Message : Type 0} where
  -- The client after the call, and whether it followed no null pointer.
  pub perform :
      ClientImpl Exn Object Message → Operation Message → ClientImpl Exn Object Message × Bool
  perform c (starts can_spawn) = let (d, a) = start can_spawn c in (d, is_returned a)
  perform c stops = let (d, a) = stop c in (d, is_returned a)
  perform c (calls now serialize) = let (d, a) = async_call c now serialize in (d, is_returned a)
  perform c (notifies serialized) = let (d, a) = notify c serialized in (d, is_returned a)

  pub perform_all :
      ClientImpl Exn Object Message
      → List (Operation Message)
      → ClientImpl Exn Object Message × Bool
  perform_all c [] = (c, true)
  perform_all c (o ∷ os) =
      let (d, safe) = perform c o in let (f, later) = perform_all d os in (f, safe && later)

  abbrev KeepsAll : ClientImpl Exn Object Message × Bool → Type 0
  KeepsAll r = IsWhole r.0 × (r.1 ≡ true)

  perform-KeepsAll :
      {c : ClientImpl Exn Object Message} (o : Operation Message)
      → IsWhole c
      → KeepsAll (perform c o)
  unfolding perform
  perform-KeepsAll (starts can_spawn) v = start-Keeps can_spawn v
  perform-KeepsAll stops v = stop-Keeps v
  perform-KeepsAll (calls now serialize) v = async_call-Keeps now serialize v
  perform-KeepsAll (notifies serialized) v = notify-Keeps serialized v

  -- From a client that holds all of its parts, or has been stopped, no order of the operations
  -- follows a null pointer, and afterwards it holds all of its parts or, when it has been stopped,
  -- no executor any more.
  pub perform_all-IsWhole :
      (c : ClientImpl Exn Object Message) (os : List (Operation Message))
      → IsWhole c
      → IsWhole (perform_all c os).0 × ((perform_all c os).1 ≡ true)
  unfolding perform_all
  perform_all-IsWhole c [] v = (v, refl)
  perform_all-IsWhole c (o ∷ os) v =
      let (w, safe) = perform-KeepsAll o v in
      let (x, later) = perform_all-IsWhole (perform c o).0 os w in (x, rw (safe, later))

  executor-stop :
      {c : ClientImpl Exn Object Message}
      → IsWhole c
      → c.is_started ≡ true
      → (stop c).0.executor ≡ none
  unfolding stop
  executor-stop {c} (whole e k l s ee ek el es running) begun =
      rw (begun, stop, running, ek, ee, stop_parts) refl
  executor-stop {c} (emptied ee b over) begun = rw (begun, stop, over) ee

  -- Once a started client has been stopped, `async_call` and `notify` throw
  -- "This client has been stopped." and change nothing.
  pub stop_refuses :
      (c : ClientImpl Exn Object Message) (now : ℕ) (serialize : ℕ → Option Message)
      (serialized : Option Message)
      → IsWhole c
      → c.is_started ≡ true
      → (async_call (stop c).0 now serialize ≡ ((stop c).0, throws stopped_error))
        × (notify (stop c).0 serialized ≡ ((stop c).0, throws stopped_error))
  stop_refuses c now serialize serialized v begun = (
    async_call_stopped (stop c).0 (executor-stop v begun) now serialize,
    notify_stopped (stop c).0 (executor-stop v begun) serialized,
  )
