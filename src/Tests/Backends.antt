-- ===== src/Tests/Backends.antt =====
-- The default backends over a small network, and the builder of servers, at concrete values.
use cpp_msgpack_rpc.Common.{
  false, ℕ, ◌≡◌, ◌≢◌, refl, true, none, some, List, [], ◌∷◌, Result, ok, err,
}
use text.Mathlib.Text.{◌==◌}
use cpp_msgpack_rpc.Common.{if◌then◌else◌}
use cpp_msgpack_rpc.Status.{Failure}
use cpp_msgpack_rpc.Addresses.Uri.{Uri, parse}
use cpp_msgpack_rpc.Transport.AsyncConnect.{find, lookup}
use cpp_msgpack_rpc.Transport.Backends.{
  Asio, Backend, connect, create_acceptors, listen_all, tcp_create, unix_create, Address,
  tcp_address, unix_socket_address, executor, resolve, resolved,
}
use cpp_msgpack_rpc.Transport.Backends.Search.{default_backends}
use cpp_msgpack_rpc.Executors.GeneralExecutor
use cpp_msgpack_rpc.Executors.GeneralExecutor.{GeneralExecutor, is_running, new_executor}
use cpp_msgpack_rpc.Servers.ServerImpl
use cpp_msgpack_rpc.Servers.ServerImpl.{
  Outcome, starts_acceptor, starts_executor, stops_acceptor, stops_executor, start_fails, returns,
}
use cpp_msgpack_rpc.Servers.ServerBuilder.{
  ServerBuilder, new_builder, starts, places, server_of, build, build_with, ended, collect,
}
use cpp_msgpack_rpc.Servers.ServerBuilder.Starting.{IsServing}
use cpp_msgpack_rpc.Servers.ServerBuilder.Building.{
  BuildsTwice, Listens, build-IsServing, build_again,
}
use cpp_msgpack_rpc.Tests.Matcher.{library}

-- One host with two endpoints, where nothing answers, and one path where a server does.
abbrev pub asio : Asio ℕ ℕ
asio = record {
  resolve = λ host service. if host == "localhost" then ok (1 ∷ 2 ∷ []) else err "unknown host";
  connect = λ endpoints. err "refused";
  connect_path = λ path. if path == "/tmp/a" then ok 9 else err "no such file";
  path_error = λ path. if path == "/tmp/a" then none else some "name too long";
  listen = λ address. ok address;
}

abbrev pub tcp_uri : Uri
tcp_uri = record { scheme = "tcp"; host_or_path = "localhost"; port_number = some 80 }

abbrev pub unix_uri : Uri
unix_uri = record { scheme = "unix"; host_or_path = "/tmp/a"; port_number = none }

pub tcp_parsed : parse library "tcp://localhost:80" ≡ ok tcp_uri
unfolding parse
tcp_parsed = refl

pub unix_parsed : parse library "unix:///tmp/a" ≡ ok unix_uri
unfolding parse
unix_parsed = refl

abbrev builder : ServerBuilder ℕ ℕ Backend
unfolding new_builder
builder = new_builder (new_executor 1 1) default_backends (tcp_uri ∷ unix_uri ∷ [])

abbrev addresses : List (Address ℕ)
addresses = tcp_address 1 ∷ tcp_address 2 ∷ unix_socket_address "/tmp/a" ∷ []

abbrev create : Backend → Uri → Result Failure (List (Address ℕ))
create = create_acceptors library asio true

abbrev serving : Outcome ℕ
unfolding ServerImpl.start
serving = ServerImpl.start true (server_of builder addresses)

abbrev left_builder : ServerBuilder ℕ ℕ Backend
left_builder = record builder { processor = none; executor = serving.server.executor }

builds : build create true true builder ≡ (left_builder, starts addresses serving)
unfolding build collect build_with ended builder create_acceptors listen_all tcp_create unix_create
    find lookup executor resolve resolved serving ServerImpl.start GeneralExecutor.start
    GeneralExecutor.on_exception
builds = refl

serving-returns : serving.answer ≡ returns
unfolding ServerImpl.start ServerImpl.start_parts ServerImpl.started GeneralExecutor.start
    GeneralExecutor.on_exception builder
serving-returns = refl

build-IsServing_example :
    Listens create builder.backends builder.uris addresses
    × (addresses ≢ [])
    × IsServing (places 0 addresses) serving
    × (left_builder.processor ≡ none)
build-IsServing_example =
    build-IsServing create true true builder left_builder addresses serving builds serving-returns

-- The paths and ports are in use.
abbrev taken : Asio ℕ ℕ
taken = record asio { listen = λ address. err "Address already in use" }

build_again_example :
    (left_builder.executor ≡ serving.server.executor)
    × BuildsTwice (create_acceptors library taken true) false true left_builder
build_again_example =
    build_again create (create_acceptors library taken true) true true false true builder
      left_builder addresses serving builds serving-returns
