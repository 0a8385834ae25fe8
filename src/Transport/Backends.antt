-- ===== src/Transport/Backends.antt =====
-- transport/tcp, transport/unix_socket and transport/create_default_backend_list.h: the backends for
-- TCP and for Unix sockets with their connectors and their factories of acceptors. asio is a
-- parameter.
pub mod Search
use Prim.Native.String.{◌++◌}
use text.Mathlib.Text.{◌==◌}
use cpp_msgpack_rpc.Common.{
  ℕ, Bool, true, false, Option, none, some, List, [], ◌∷◌, map, if◌then◌else◌, Result, ok, err,
  ◌>>=◌, String,
}
use cpp_msgpack_rpc.Status.{
  Status, status, no_error, invalid_argument, host_unresolved, connection_failure,
  precondition_not_met, Failure, system_error, failing,
}
use cpp_msgpack_rpc.Addresses.Uri.{Uri, Library, tcp_scheme, unix_socket_scheme, format}
use cpp_msgpack_rpc.Transport.AsyncConnect.{
  BackendList, append, Attempt, throws, escapes, calls_back,
}

-- The local address of an acceptor.
pub data Address (Endpoint : Type 0) : Type 0 where
  tcp_address : Endpoint → Address Endpoint
  unix_socket_address : String → Address Endpoint

-- What the code uses of asio, with the texts of the errors: the endpoints of a host and a service, the
-- ends of the attempts to connect to endpoints and to a path, the exception of the constructor of an
-- address for a path that is too long, and the constructor of an acceptor, which binds an address and
-- has the address that it listens to, or throws.
pub record Asio (Endpoint Socket : Type 0) : Type 0 where
  pub resolve : String → String → Result String (List Endpoint)
  pub connect : List Endpoint → Result String Socket
  pub connect_path : String → Result String Socket
  pub path_error : String → Option String
  pub listen : Address Endpoint → Result String (Address Endpoint)

pub data Backend : Type 0 where
  tcp_backend unix_socket_backend : Backend

pub data Connector : Type 0 where
  tcp_connector unix_socket_connector : Connector

unfoldable pub scheme_of : Backend → String
scheme_of tcp_backend = tcp_scheme
scheme_of unix_socket_backend = unix_socket_scheme

unfoldable pub create_default_backend_list : Result Status (BackendList Backend)
unfolding scheme_of
create_default_backend_list = append [] (scheme_of tcp_backend) tcp_backend >>= λ backends.
    append backends (scheme_of unix_socket_backend) unix_socket_backend

-- TCPBackend::executor and UnixSocketBackend::executor, and the connector made with it.
unfoldable pub executor : Bool → Result Status (Unit {0})
executor is_alive =
    if is_alive then ok _ else err (status precondition_not_met "Executor has been deleted.")

abbrev connector_of : Backend → Connector
connector_of tcp_backend = tcp_connector
connector_of unix_socket_backend = unix_socket_connector

-- With whether the executor still exists.
unfoldable pub create_connector : Bool → Backend → Result Status Connector
unfolding executor
create_connector is_alive b = executor is_alive >>= λ e. ok (connector_of b)

-- `get_executor` of both connectors.
unfoldable pub get_executor : Bool → Result Status (Unit {0})
get_executor is_alive =
    if is_alive then ok _ else err (status precondition_not_met "Executor is not set.")

abbrev port_or_zero : Option ℕ → ℕ
port_or_zero none = 0
port_or_zero (some p) = p

module _ {Endpoint Socket : Type 0} (l : Library) (asio : Asio Endpoint Socket) where
  unfoldable pub resolved : Uri → Result String (List Endpoint) → Result Status (List Endpoint)
  resolved u (ok endpoints) = ok endpoints
  resolved u (err text) =
      err (status host_unresolved ("Failed to resolve " ++ (format l u ++ (": " ++ text))))

  -- `resolve` of the connector and of the factory of acceptors.
  unfoldable pub resolve : Uri → Result Status (List Endpoint)
  unfolding resolved
  resolve u =
      if u.scheme == tcp_scheme
      then resolved u (asio.resolve u.host_or_path (l.print (port_or_zero u.port_number)))
      else err (
          status invalid_argument (
            "Scheme is different with the resolver: expected="
            ++ (tcp_scheme ++ (", actual=" ++ u.scheme))))

  -- `on_connect` of both connectors; the connection is known by its socket.
  unfoldable pub on_connect : Uri → Result String Socket → Attempt Socket
  on_connect u (ok socket) = calls_back no_error (some socket)
  on_connect u (err text) =
      calls_back
        (status connection_failure ("Failed to connect to " ++ (format l u ++ (": " ++ text)))) none

  abbrev pub thrown_or : Result Status (Attempt Socket) → Attempt Socket
  thrown_or (ok a) = a
  thrown_or (err s) = throws s

  -- `async_connect` of the connectors and what comes of it, with whether the executor still exists.
  unfoldable pub tcp_async_connect : Bool → Uri → Attempt Socket
  unfolding resolve get_executor on_connect
  tcp_async_connect is_alive u = thrown_or (
      resolve u >>= λ endpoints.
      get_executor is_alive >>= λ e. ok (on_connect u (asio.connect endpoints)))

  abbrev pub at_path : Option String → Attempt Socket → Attempt Socket
  at_path none a = a
  at_path (some text) a = escapes text

  unfoldable pub unix_async_connect : Bool → Uri → Attempt Socket
  unfolding get_executor on_connect
  unix_async_connect is_alive u = at_path (asio.path_error u.host_or_path) (
      thrown_or
        (get_executor is_alive >>= λ e. ok (on_connect u (asio.connect_path u.host_or_path))))

  abbrev pub connect : Bool → Connector → Uri → Attempt Socket
  connect is_alive tcp_connector u = tcp_async_connect is_alive u
  connect is_alive unix_socket_connector u = unix_async_connect is_alive u

  -- The acceptors that are constructed for some addresses; an error of asio leaves the loop.
  abbrev pub failure : {A : Type 0} → Result String A → Result Failure A
  failure (ok a) = ok a
  failure (err text) = err (system_error text)

  unfoldable pub listen_all : List (Address Endpoint) → Result Failure (List (Address Endpoint))
  listen_all [] = ok []
  listen_all (a ∷ as') =
      let rest = listen_all as' in
      failure (asio.listen a) >>= λ local. rest >>= λ later. ok (local ∷ later)

  -- `create` of the factories of acceptors: the addresses of the acceptors.
  unfoldable pub tcp_create : Uri → Result Failure (List (Address Endpoint))
  unfolding resolve listen_all
  tcp_create u = failing (resolve u) >>= λ endpoints. listen_all (map tcp_address endpoints)

  abbrev pub made_address : String → Option String → Result Failure (Address Endpoint)
  made_address path none = ok (unix_socket_address path)
  made_address path (some text) = err (system_error text)

  unfoldable pub unix_create : Uri → Result Failure (List (Address Endpoint))
  unfolding listen_all
  unix_create u = made_address u.host_or_path (asio.path_error u.host_or_path) >>= λ address.
      listen_all (address ∷ [])

  -- `create_acceptor_factory()->create`.
  unfoldable pub create_acceptors : Bool → Backend → Uri → Result Failure (List (Address Endpoint))
  unfolding executor tcp_create unix_create
  create_acceptors is_alive tcp_backend u = failing (executor is_alive) >>= λ e. tcp_create u
  create_acceptors is_alive unix_socket_backend u =
      failing (executor is_alive) >>= λ e. unix_create u
