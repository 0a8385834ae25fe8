-- ===== src/Transport/Backends/Search.antt =====
-- async_connect.h with the default backends: the search over URIs that URI::parse has read.
use text.Mathlib.Text
use cpp_msgpack_rpc.Common.{
  ◌≡◌, refl, ◌⊎◌, inl, inr, Bool, true, false, Bool-cases, none, some, List, [], ◌∷◌, Result, ok,
  err, String, ◌>>=◌,
}
use cpp_msgpack_rpc.Status.{Status, code, no_error, connection_failure}
use cpp_msgpack_rpc.Addresses.Uri.{Uri, Library, IsLawful, parse, tcp_scheme, unix_socket_scheme}
use cpp_msgpack_rpc.Addresses.Uri.Reading.{IsParsed, parse-IsParsed}
use cpp_msgpack_rpc.Addresses.Uri.RoundTrip.{IsValid}
use cpp_msgpack_rpc.Transport.AsyncConnect.{
  BackendList, append, lookup, find, connector_for, after_attempt, async_connect, Attempt, throws,
  calls_back, Ending, on_connection, is_success,
}
use cpp_msgpack_rpc.Transport.Backends.{
  Asio, Backend, tcp_backend, unix_socket_backend, Connector, tcp_connector, unix_socket_connector,
  scheme_of, create_default_backend_list, executor, create_connector, connect, tcp_async_connect,
  unix_async_connect, get_executor, on_connect, thrown_or, resolve, resolved,
}

abbrev pub default_backends : BackendList Backend
default_backends = ("unix", unix_socket_backend) ∷ ("tcp", tcp_backend) ∷ []

pub create_default_backend_list-ok : create_default_backend_list ≡ ok default_backends
unfolding create_default_backend_list append lookup scheme_of
create_default_backend_list-ok = refl

-- A list of URIs that were read by URI::parse.
pub data AreParsed (l : Library) : List Uri → Type 0 where
  no_uris : AreParsed l []
  parsed :
      (text : String) (u : Uri) (us : List Uri)
      → parse l text ≡ ok u
      → AreParsed l us
      → AreParsed l (u ∷ us)

-- asio makes an address of the path of each URI for a Unix socket.
abbrev pub AreShort : {Endpoint Socket : Type 0} → Asio Endpoint Socket → List Uri → Type 0
AreShort asio [] = Unit {0}
AreShort asio (u ∷ us) =
    (u.scheme ≡ unix_socket_scheme → asio.path_error u.host_or_path ≡ none) × AreShort asio us

-- The callback is called with a connection, or with CONNECTION_FAILURE and none.
abbrev pub CallsBack : {Conn : Type 0} → Ending Conn → Type 0
CallsBack {Conn} e =
    ((c : Conn) × (e ≡ on_connection no_error (some c)))
    ⊎ ((s : Status) × (code s ≡ connection_failure) × (e ≡ on_connection s none))

pub valid : (l : Library) (text : String) (u : Uri) → IsLawful l → parse l text ≡ ok u → IsValid u
valid l text u lawful e =
    let p : IsParsed text (parse l text) = parse-IsParsed l lawful text in rw e at p

pub connector_found :
    {Endpoint Socket : Type 0} (l : Library) (asio : Asio Endpoint Socket) (is_set : Bool) (u : Uri)
    → IsValid u
    → (c : Connector) × (connector_for
          (create_connector true)
          (connect l asio is_set)
          default_backends
          u
        ≡ ok c)
      × (c ≡ unix_socket_connector → u.scheme ≡ unix_socket_scheme)
unfolding connector_for find lookup create_connector executor
connector_found l asio is_set u (inl (scheme, a, b, p, port, small)) =
    (tcp_connector, rw scheme refl, λ e. cc)
connector_found l asio is_set u (inr (scheme, a, b, port)) =
    (unix_socket_connector, rw scheme refl, λ e. scheme)

-- What an attempt can end with.
abbrev pub IsAttempt : {Conn : Type 0} → Attempt Conn → Type 0
IsAttempt {Conn} a =
    ((c : Conn) × (a ≡ calls_back no_error (some c)))
    ⊎ ((s : Status) × (is_success (code s) ≡ false) × ((a ≡ throws s) ⊎ (a ≡ calls_back s none)))

abbrev Throws : {A : Type 0} → Status → Result Status A
Throws s = err s

err_inj : {A : Type 0} {s t : Status} → Throws {A = A} s ≡ Throws {A = A} t → s ≡ t
err_inj e = cc

module _ {Endpoint Socket : Type 0} (l : Library) (asio : Asio Endpoint Socket) where
  on_connect-IsAttempt : (u : Uri) (r : Result String Socket) → IsAttempt (on_connect l asio u r)
  unfolding on_connect
  on_connect-IsAttempt u (ok socket) = inl (socket, refl)
  on_connect-IsAttempt u (err text) = inr (_, refl, inr refl)

  with_executor-IsAttempt :
      (is_set : Bool) (a : Attempt Socket)
      → IsAttempt a
      → IsAttempt (thrown_or l asio (get_executor is_set >>= λ e. ok a))
  unfolding get_executor
  with_executor-IsAttempt true a h = h
  with_executor-IsAttempt false a h = inr (_, refl, inl refl)

  resolved-fails :
      (u : Uri) (r : Result String (List Endpoint)) (s : Status)
      → resolved l asio u r ≡ err s
      → is_success (code s) ≡ false
  unfolding resolved
  resolved-fails u (ok endpoints) s e = cc
  resolved-fails u (err text) s e = rw⁻¹ (err_inj e) refl

  resolve-fails : (u : Uri) (s : Status) → resolve l asio u ≡ err s → is_success (code s) ≡ false
  unfolding resolve
  resolve-fails u s e = elim (Bool-cases (Text.◌==◌ u.scheme tcp_scheme)) [
    | inl same ↦ resolved-fails u _ s (rw same at e)
    | inr other ↦ rw⁻¹ (err_inj (rw other at e)) refl
  ]

  resolved-IsAttempt :
      (is_set : Bool) (u : Uri) (r : Result Status (List Endpoint))
      → ((s : Status) → r ≡ err s → is_success (code s) ≡ false)
      → IsAttempt (
          thrown_or l asio (
            r >>= λ endpoints.
            get_executor is_set >>= λ e. ok (on_connect l asio u (asio.connect endpoints))))
  resolved-IsAttempt is_set u (ok endpoints) h =
      with_executor-IsAttempt is_set (on_connect l asio u (asio.connect endpoints))
        (on_connect-IsAttempt u (asio.connect endpoints))
  resolved-IsAttempt is_set u (err s) h = inr (s, h s refl, inl refl)

  pub connect-IsAttempt :
      (is_set : Bool) (c : Connector) (u : Uri)
      → (c ≡ unix_socket_connector → asio.path_error u.host_or_path ≡ none)
      → IsAttempt (connect l asio is_set c u)
  unfolding tcp_async_connect unix_async_connect
  connect-IsAttempt is_set tcp_connector u short =
      resolved-IsAttempt is_set u (resolve l asio u) (resolve-fails u)
  connect-IsAttempt is_set unix_socket_connector u short = rw (short refl) (
      with_executor-IsAttempt is_set (on_connect l asio u (asio.connect_path u.host_or_path))
        (on_connect-IsAttempt u (asio.connect_path u.host_or_path)))

  abbrev search : Bool → List Uri → Ending Socket
  search is_set us =
      async_connect (create_connector true) (connect l asio is_set) default_backends us

  after : Bool → Attempt Socket → List Uri → Ending Socket
  after is_set a us =
      after_attempt (create_connector true) (connect l asio is_set) default_backends a us
        (search is_set us)
