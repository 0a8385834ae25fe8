-- ===== src/Tests/Builders.antt =====
-- A builder of clients with two URIs, and the builds of two clients.
use cpp_msgpack_rpc.Common.{ℕ, ◌≡◌, refl, true, false, none, some, [], ◌∷◌}
use cpp_msgpack_rpc.Config.Settings.{default_client, default_reconnection}
use cpp_msgpack_rpc.Transport.AsyncConnect.{begin, begin_after, connector_for, find, lookup}
use cpp_msgpack_rpc.Transport.Backends.{
  Backend, create_connector, connect, executor, tcp_async_connect, resolve, resolved, get_executor,
  on_connect,
}
use cpp_msgpack_rpc.Transport.Backends.Search.{default_backends}
use cpp_msgpack_rpc.Executors.GeneralExecutor
use cpp_msgpack_rpc.Executors.GeneralExecutor.{new_executor}
use cpp_msgpack_rpc.Clients.ReconnectionTimer.{new_timer}
use cpp_msgpack_rpc.Clients.ClientConnector
use cpp_msgpack_rpc.Clients.ClientConnector.{Effect, try_connect}
use cpp_msgpack_rpc.Clients.ClientImpl
use cpp_msgpack_rpc.Clients.ClientImpl.{ClientImpl, start_error}
use cpp_msgpack_rpc.Clients.ClientBuilder.{
  ClientBuilder, builds, new_connector, client_of, started, make_client, build_with, build,
  connect_to,
}
use cpp_msgpack_rpc.Clients.ClientBuilder.Building.{IsRefused, reason, client_build_again}
use cpp_msgpack_rpc.Tests.Matcher.{library}
use cpp_msgpack_rpc.Tests.Backends.{asio, tcp_uri, unix_uri}

abbrev empty_builder : ClientBuilder ℕ Backend
empty_builder = record {
  executor = new_executor 2 1;
  config = default_client 4096;
  backends = default_backends;
}

abbrev client_builder : ClientBuilder ℕ Backend
unfolding connect_to default_client default_reconnection
client_builder = connect_to (connect_to empty_builder tcp_uri) unix_uri

abbrev after_build : ClientBuilder ℕ Backend
unfolding GeneralExecutor.start
after_build = record client_builder {
  executor = (GeneralExecutor.start true client_builder.executor).0;
}

abbrev first_client : ClientImpl ℕ ℕ ℕ
unfolding GeneralExecutor.start client_of ClientImpl.start ClientImpl.start_parts ClientImpl.started
    ClientConnector.start
first_client =
    (ClientImpl.start true (
      client_of 7 client_builder (record {
        connection = none;
        is_stopped = false;
        retry_timer = record {
          initial_waiting_time = 125000000;
          max_waiting_time = 32000000000;
          next_wait_time_without_jitter = 125000000;
        };
      }))).0

builds_first :
    build (create_connector true) (connect library asio true) false true 7 client_builder
    ≡ (after_build, builds first_client (try_connect ∷ []))
unfolding build make_client build_with started new_connector new_timer client_of begin begin_after
    connector_for find lookup create_connector executor tcp_async_connect resolve resolved
    get_executor on_connect client_builder connect_to default_client default_reconnection
    first_client after_build GeneralExecutor.start ClientImpl.start ClientImpl.start_parts
    ClientImpl.started ClientConnector.start
builds_first = refl

client_build_again_example :
    (first_client.executor ≡ some after_build.executor)
    × IsRefused false
        (reason (
          begin
            (create_connector true)
            (connect library asio true)
            after_build.backends
            after_build.config.uris))
        (build {Object = ℕ} {Message = ℕ}
          (create_connector true)
          (connect library asio true)
          false
          true
          8
          after_build)
client_build_again_example =
    client_build_again (create_connector true) (connect library asio true)
      (connect library asio true) false true false true 7 8 client_builder after_build first_client
      (try_connect ∷ []) builds_first
