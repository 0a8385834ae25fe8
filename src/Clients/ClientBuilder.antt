-- ===== src/Clients/ClientBuilder.antt =====
-- clients/impl/client_builder_impl.h: the builder of clients. Its executor is shared with the client.
pub mod Building
pub mod Connecting
use cpp_msgpack_rpc.Common.{
  ℕ, ℤ, pos, negsuc, Bool, true, false, Option, none, some, List, [], ◌∷◌, ◌++◌, if◌then◌else◌,
  Result, ok, err, ◌>>=◌, String,
}
use cpp_msgpack_rpc.Status.{Status, Failure, msgpack_rpc_exception, system_error}
use cpp_msgpack_rpc.Addresses.Uri.{Uri}
use cpp_msgpack_rpc.Config.Settings.{ClientConfig}
use cpp_msgpack_rpc.Transport.AsyncConnect
use cpp_msgpack_rpc.Transport.AsyncConnect.{
  BackendList, Attempt, Begun, begun, no_uri, thrown, begin,
}
use cpp_msgpack_rpc.Executors.GeneralExecutor.{GeneralExecutor, try_stop}
use cpp_msgpack_rpc.Clients.ReconnectionTimer.{new_timer}
use cpp_msgpack_rpc.Clients.CallList.{CallList}
use cpp_msgpack_rpc.Clients.CallFuture.{new_future}
use cpp_msgpack_rpc.Clients.ClientConnector.{ClientConnector, Effect}
use cpp_msgpack_rpc.Clients.ClientImpl
use cpp_msgpack_rpc.Clients.ClientImpl.{
  ClientImpl, Answer, returns, throws, faults, Exception, rpc_exception, asio_error,
}

pub record ClientBuilder (Exn Backend : Type 0) : Type 0 where
  pub executor : GeneralExecutor Exn
  pub config : ClientConfig
  pub backends : BackendList Backend

-- A client with what its start asks for, the exception of a build, a destructor of the client that
-- waits for threads that do not end, or a URI that is not there.
pub data Built (Exn Object Message : Type 0) : Type 0 where
  builds : ClientImpl Exn Object Message → List Effect → Built Exn Object Message
  refuses : Exception → Built Exn Object Message
  waits : Built Exn Object Message
  crashes : Built Exn Object Message

abbrev pub exception_of : Failure → Exception
exception_of (msgpack_rpc_exception s) = rpc_exception s
exception_of (system_error text) = asio_error text

-- A duration of a configuration, whose setters let no negative one through.
abbrev pub nanoseconds : ℤ → ℕ
nanoseconds (pos n) = n
nanoseconds (negsuc n) = 0

module _ {Exn Backend : Type 0} where
  unfoldable pub register_protocol :
      ClientBuilder Exn Backend → String → Backend → Result Status (ClientBuilder Exn Backend)
  register_protocol b scheme backend = AsyncConnect.append b.backends scheme backend >>= λ backends.
      ok (record b { backends = backends })

  unfoldable pub connect_to : ClientBuilder Exn Backend → Uri → ClientBuilder Exn Backend
  connect_to b u = record b { config = record b.config { uris = b.config.uris ++ u ∷ [] } }

module _ {Exn Backend : Type 0} where
  abbrev pub share :
      ClientBuilder Exn Backend → Option (GeneralExecutor Exn) → ClientBuilder Exn Backend
  share b none = b
  share b (some e) = record b { executor = e }

-- The constructor of ClientConnector, with that of its timer.
unfoldable pub new_connector : ClientConfig → Result Status ClientConnector
new_connector c =
    new_timer (nanoseconds c.reconnection.initial_waiting_time)
      (nanoseconds c.reconnection.max_waiting_time)
    >>= λ timer. ok (record { connection = none; is_stopped = false; retry_timer = timer })

module _ {Exn Object Message Backend : Type 0} where
  -- The constructors of CallList and ClientImpl, with the first ID of the generator.
  unfoldable pub client_of :
      ℕ → ClientBuilder Exn Backend → ClientConnector → ClientImpl Exn Object Message
  client_of first_id b k = record {
    executor = some b.executor;
    connector = some k;
    call_list = some (record {
      list = [];
      next_id = first_id;
      call_timeout = nanoseconds b.config.call_timeout;
      futures = new_future;
      num_futures = 0;
    });
    sender = some (record { sent_messages = []; is_sending = false });
    is_started = false;
    is_stopped = false;
  }

  -- An exception leaves `build`: the destructor of the client stops it. With whether the threads of the
  -- executor end.
  unfoldable pub stop_shared :
      Bool
      → ClientBuilder Exn Backend
      → Option (GeneralExecutor Exn)
      → Exception
      → ClientBuilder Exn Backend × Built Exn Object Message
  stop_shared ends b none x = (b, refuses x)
  stop_shared ends b (some e) x =
      let (f, returned) = try_stop ends e in
      (record b { executor = f }, if returned then refuses x else waits)

  unfoldable pub destroyed :
      Bool
      → ClientBuilder Exn Backend
      → ClientImpl Exn Object Message
      → Exception
      → ClientBuilder Exn Backend × Built Exn Object Message
  unfolding stop_shared
  destroyed ends b c x = elim (ClientImpl.stop c).1 [
    | returns (some stopped) ↦ stop_shared ends b c.executor x
    | _ ↦ (b, refuses x)
  ]

  unfoldable pub started :
      Bool
      → ClientBuilder Exn Backend
      → ClientImpl Exn Object Message × Answer (List Effect)
      → ClientBuilder Exn Backend × Built Exn Object Message
  unfolding destroyed
  started ends b (c, returns effects) = (share b c.executor, builds c effects)
  started ends b (c, throws x) = destroyed ends (share b c.executor) c x
  started ends b (c, faults) = (b, crashes)

  -- The start of the client, whose connector runs the beginning of the search for a server.
  unfoldable pub build_with :
      (ends can_spawn : Bool)
      → ClientBuilder Exn Backend
      → ClientImpl Exn Object Message
      → Begun
      → ClientBuilder Exn Backend × Built Exn Object Message
  unfolding started destroyed
  build_with ends can_spawn b c begun = started ends b (ClientImpl.start can_spawn c)
  build_with ends can_spawn b c no_uri = (b, crashes)
  build_with ends can_spawn b c (thrown f) =
      destroyed ends b (record c { is_started = true }) (exception_of f)

  -- With the connector, whose constructor may throw.
  unfoldable pub make_client :
      (ends can_spawn : Bool)
      → ℕ
      → ClientBuilder Exn Backend
      → Begun
      → Result Status ClientConnector
      → ClientBuilder Exn Backend × Built Exn Object Message
  unfolding client_of build_with
  make_client ends can_spawn first_id b how (err s) = (b, refuses (rpc_exception s))
  make_client ends can_spawn first_id b how (ok k) =
      build_with ends can_spawn b (client_of first_id b k) how

module _ {Exn Object Message Backend Connector Conn : Type 0}
    (create_connector : Backend → Result Status Connector)
    (connect : Connector → Uri → Attempt Conn) where
  -- ClientBuilderImpl::build, with whether the threads of the executor end and can be made.
  unfoldable pub build :
      (ends can_spawn : Bool)
      → ℕ
      → ClientBuilder Exn Backend
      → ClientBuilder Exn Backend × Built Exn Object Message
  unfolding new_connector make_client
  build ends can_spawn first_id b =
      make_client ends can_spawn first_id b
        (begin create_connector connect b.backends b.config.uris) (new_connector b.config)
