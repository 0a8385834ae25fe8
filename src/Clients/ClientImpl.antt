-- ===== src/Clients/ClientImpl.antt =====
-- client_impl.h: a client puts the parts together. Its operations are called one at a time; each
-- pointer is `none` when it has been reset, and following it then is a fault.
pub mod Lifecycle
use cpp_msgpack_rpc.Common.{
  ℕ, Bool, true, false, Option, none, some, List, [], ◌∷◌, if◌then◌else◌, Result, ok, err, String,
}
use cpp_msgpack_rpc.Status.{Status, status, precondition_not_met}
use cpp_msgpack_rpc.Executors.GeneralExecutor
use cpp_msgpack_rpc.Executors.GeneralExecutor.{GeneralExecutor, StartError, is_running}
use cpp_msgpack_rpc.Clients.CallList.{CallList, CreateError, Created, create}
use cpp_msgpack_rpc.Clients.MessageSender.{MessageSender, send}
use cpp_msgpack_rpc.Clients.ClientConnector
use cpp_msgpack_rpc.Clients.ClientConnector.{ClientConnector, Effect}

pub record ClientImpl (Exn Object Message : Type 0) : Type 0 where
  pub executor : Option (GeneralExecutor Exn)
  pub connector : Option ClientConnector
  pub call_list : Option (CallList Object)
  pub sender : Option (MessageSender Message)
  pub is_started : Bool
  pub is_stopped : Bool

pub data Exception : Type 0 where
  rpc_exception : Status → Exception
  start_error : StartError → Exception
  create_error : CreateError → Exception
  asio_error : String → Exception

-- How an operation ends.
pub data Answer (A : Type 0) : Type 0 where
  returns : A → Answer A
  throws : Exception → Answer A
  faults : Answer A

-- What `async_call` returns, with the message that was passed to the connection, if any.
pub record Called (Message : Type 0) : Type 0 where
  pub call : Created Message
  pub written : Option Message

-- The parts of a client when it has stopped.
pub record Stopped (Exn : Type 0) : Type 0 where
  pub connector : ClientConnector
  pub effects : List Effect
  pub executor : GeneralExecutor Exn

abbrev has_connection : Option ClientConnector → Bool
has_connection none = false
has_connection (some c) = elim c.connection [ none ↦ false | some i ↦ true ]

abbrev runs : {Exn : Type 0} → Option (GeneralExecutor Exn) → Bool
runs none = false
runs (some e) = is_running e

abbrev pub stopped_error : Exception
stopped_error = rpc_exception (status precondition_not_met "This client has been stopped.")

module _ {Exn Object Message : Type 0} where
  unfoldable pub started :
      ClientImpl Exn Object Message
      → List Effect
      → GeneralExecutor Exn × Result StartError (Unit {0})
      → ClientImpl Exn Object Message × Answer (List Effect)
  started c effects (e, ok u) = (record c { executor = some e }, returns effects)
  started c effects (e, err x) = (record c { executor = some e }, throws (start_error x))

  unfoldable pub start_parts :
      Bool
      → ClientImpl Exn Object Message
      → Option ClientConnector
      → Option (GeneralExecutor Exn)
      → ClientImpl Exn Object Message × Answer (List Effect)
  start_parts can_spawn c (some k) (some e) =
      started (record c { connector = some (ClientConnector.start k).0 })
        (ClientConnector.start k).1 (GeneralExecutor.start can_spawn e)
  start_parts can_spawn c _ _ = (c, faults)

  -- With whether the executor can make its threads; what the connector asks for is returned. An
  -- exception of the search that the connector begins leaves here before the executor is started; see
  -- ClientBuilder.build_with.
  unfoldable pub start :
      Bool → ClientImpl Exn Object Message → ClientImpl Exn Object Message × Answer (List Effect)
  unfolding start_parts started
  start can_spawn c =
      if c.is_started
      then (
        c,
        throws
            (rpc_exception (status precondition_not_met "This client has already been started.")),
      )
      else start_parts can_spawn (record c { is_started = true }) c.connector c.executor

  -- The connector and the executor are stopped, and the pointers to all the parts are reset.
  unfoldable pub stop_parts :
      ClientImpl Exn Object Message
      → Option ClientConnector
      → Option (GeneralExecutor Exn)
      → ClientImpl Exn Object Message × Answer (Option (Stopped Exn))
  stop_parts c (some k) (some e) = (
    record c { executor = none; connector = none; call_list = none; sender = none },
    returns (
        some (record {
          connector = (ClientConnector.stop k).0;
          effects = (ClientConnector.stop k).1;
          executor = GeneralExecutor.stop e;
        })),
  )
  stop_parts c _ _ = (c, faults)

  -- With the parts as they are let go, if this call stops the client.
  unfoldable pub stop :
      ClientImpl Exn Object Message → ClientImpl Exn Object Message × Answer (Option (Stopped Exn))
  unfolding stop_parts
  stop c =
      if c.is_started
      then if c.is_stopped
        then (c, returns none)
        else stop_parts (record c { is_stopped = true }) c.connector c.executor
      else (c, returns none)

  -- `sender_->send(message, id)`.
  send_message :
      ClientImpl Exn Object Message
      → Option (MessageSender Message)
      → Message
      → Option ℕ
      → Option (ClientImpl Exn Object Message × Option Message)
  send_message c none message id = none
  send_message c (some s) message id =
      let (t, written) = send (has_connection c.connector) s message id in
      some (record c { sender = some t }, written)

  call_sent :
      ClientImpl Exn Object Message
      → Created Message
      → Option (ClientImpl Exn Object Message × Option Message)
      → ClientImpl Exn Object Message × Answer (Called Message)
  call_sent c created none = (c, faults)
  call_sent c created (some (d, written)) =
      (d, returns (record { call = created; written = written }))

  created_call :
      ClientImpl Exn Object Message
      → CallList Object × Result CreateError (Created Message)
      → ClientImpl Exn Object Message × Answer (Called Message)
  unfolding call_sent send_message
  created_call c (l, err x) = (record c { call_list = some l }, throws (create_error x))
  created_call c (l, ok created) =
      call_sent (record c { call_list = some l }) created
        (send_message (record c { call_list = some l }) c.sender created.message (some created.id))

  call_checked :
      ClientImpl Exn Object Message
      → ℕ
      → (ℕ → Option Message)
      → Option (CallList Object)
      → ClientImpl Exn Object Message × Answer (Called Message)
  call_checked c now serialize none = (c, faults)
  call_checked c now serialize (some l) = created_call c (create l now serialize)

  pub async_call :
      ClientImpl Exn Object Message
      → ℕ
      → (ℕ → Option Message)
      → ClientImpl Exn Object Message × Answer (Called Message)
  unfolding call_checked created_call
  async_call c now serialize =
      if runs c.executor
      then call_checked c now serialize c.call_list
      else (c, throws stopped_error)

  notified :
      ClientImpl Exn Object Message
      → Option (ClientImpl Exn Object Message × Option Message)
      → ClientImpl Exn Object Message × Answer (Option Message)
  notified c none = (c, faults)
  notified c (some (d, written)) = (d, returns written)

  notify_serialized :
      ClientImpl Exn Object Message
      → Option Message
      → ClientImpl Exn Object Message × Answer (Option Message)
  unfolding notified send_message
  notify_serialized c none = (c, throws (create_error CreateError.not_serialized))
  notify_serialized c (some message) = notified c (send_message c c.sender message none)

  -- With what the parameters are serialized to, `none` if that throws.
  pub notify :
      ClientImpl Exn Object Message
      → Option Message
      → ClientImpl Exn Object Message × Answer (Option Message)
  unfolding notify_serialized
  notify c serialized =
      if runs c.executor then notify_serialized c serialized else (c, throws stopped_error)
