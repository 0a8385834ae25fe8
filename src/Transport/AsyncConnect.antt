-- ===== src/Transport/AsyncConnect.antt =====
-- transport/backend_list.h, transport/async_connect.h: the URIs of a list are tried one after
-- another until one of them gives a connection.
pub mod Order
pub mod Beginning
use cpp_msgpack_rpc.Common.{
  ℕ, Bool, true, false, Option, none, some, List, [], ◌∷◌, if◌then◌else◌, Result, ok, err, ◌>>=◌,
  String,
}
use text.Mathlib.Text.{◌==◌}
use Prim.Native.String.{◌++◌}
use cpp_msgpack_rpc.Addresses.Uri.{Uri}
use cpp_msgpack_rpc.Status.{
  Status, StatusCode, Failure, msgpack_rpc_exception, system_error, status, code, success,
  invalid_argument, connection_failure,
}

-- `BackendList`: the backends with their schemes.
abbrev pub BackendList : (Backend : Type 0) → Type 0
BackendList Backend = List (String × Backend)

module _ {Backend : Type 0} where
  -- `backends_.find`.
  unfoldable pub lookup : BackendList Backend → String → Option Backend
  lookup [] scheme = none
  lookup ((s, b) ∷ bs) scheme = let rest = lookup bs scheme in if s == scheme then some b else rest

  unfoldable pub append :
      BackendList Backend → String → Backend → Result Status (BackendList Backend)
  append bs scheme b = elim (lookup bs scheme) [
    | none ↦ ok ((scheme, b) ∷ bs)
    | some _ ↦ err (status invalid_argument ("Duplicate scheme : \"" ++ scheme ++ "\"."))
  ]

  unfoldable pub find : BackendList Backend → String → Result Status Backend
  find bs scheme = elim (lookup bs scheme) [
    | none ↦ err (status invalid_argument ("Invalid scheme: " ++ scheme ++ "."))
    | some b ↦ ok b
  ]

-- What a connector does with one URI: it throws an `MsgpackRPCException` or an error of asio, or calls
-- back.
pub data Attempt (Conn : Type 0) : Type 0 where
  throws : Status → Attempt Conn
  escapes : String → Attempt Conn
  calls_back : Status → Option Conn → Attempt Conn

-- How all of it ends: `on_connection_` is called, an exception leaves the connector, or there is no
-- URI to dereference.
pub data Ending (Conn : Type 0) : Type 0 where
  on_connection : Status → Option Conn → Ending Conn
  leaves : Failure → Ending Conn
  faults : Ending Conn

-- How far a search comes before it has to wait for a connector.
pub data Begun : Type 0 where
  begun no_uri : Begun
  thrown : Failure → Begun

abbrev pub is_success : StatusCode → Bool
is_success success = true
is_success _ = false

-- The backends, which make the connectors, and what the connectors do are parameters.
module _ {Backend Connector Conn : Type 0} (create_connector : Backend → Result Status Connector)
    (connect : Connector → Uri → Attempt Conn) (backends : BackendList Backend) where
  -- The connector for a URI.
  unfoldable pub connector_for : Uri → Result Status Connector
  unfolding find
  connector_for u = find backends u.scheme >>= create_connector

  -- `operator()` with the rest of the URIs, and what `async_connect` does with them.
  unfoldable pub on_result : Status → Option Conn → List Uri → Ending Conn → Ending Conn
  on_result s c rest next = if is_success (code s) then on_connection s c else elim rest [
    | [] ↦ on_connection (status connection_failure "Failed to connect to all the URIs.") c
    | _ ∷ _ ↦ next
  ]

  unfoldable pub after_attempt : Attempt Conn → List Uri → Ending Conn → Ending Conn
  unfolding on_result
  after_attempt (throws s) rest next = on_result s none rest next
  after_attempt (escapes text) rest next = leaves (system_error text)
  after_attempt (calls_back s c) rest next = on_result s c rest next

  -- `async_connect` from the current URI on: the connector is made outside of the `try` block.
  unfoldable pub async_connect : List Uri → Ending Conn
  unfolding connector_for after_attempt
  async_connect [] = faults
  async_connect (u ∷ us) =
      let next = async_connect us in
      elim (connector_for u) [
        | err s ↦ leaves (msgpack_rpc_exception s)
        | ok c ↦ after_attempt (connect c u) us next
      ]

  -- The part of it that runs before the function returns: the search goes on at once while
  -- connectors throw, and its callback is called at once when the last of them does.
  unfoldable pub begin_after : Attempt Conn → List Uri → Begun → Begun
  begin_after (calls_back s c) rest next = begun
  begin_after (escapes text) rest next = thrown (system_error text)
  begin_after (throws s) [] next = begun
  begin_after (throws s) (_ ∷ _) next = next

  unfoldable pub begin : List Uri → Begun
  unfolding connector_for begin_after
  begin [] = no_uri
  begin (u ∷ us) =
      let next = begin us in
      elim (connector_for u) [
        | err s ↦ thrown (msgpack_rpc_exception s)
        | ok c ↦ begin_after (connect c u) us next
      ]
