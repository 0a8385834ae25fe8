-- ===== src/Transport/AsyncConnect/Order.antt =====
-- async_connect.h: in which order the URIs are tried, and what comes of it.
use cpp_msgpack_rpc.Common.{
  ◌≡◌, refl, ◌∙◌, false, Option, none, List, [], ◌∷◌, ◌++◌, if◌then◌else◌, Result, ok, err,
}
use cpp_msgpack_rpc.Status.{
  Status, status, code, connection_failure, msgpack_rpc_exception, system_error,
}
use cpp_msgpack_rpc.Addresses.Uri.{Uri}
use cpp_msgpack_rpc.Transport.AsyncConnect.{
  BackendList, connector_for, Attempt, throws, escapes, calls_back, Ending, on_connection, leaves,
  is_success, on_result, after_attempt, async_connect,
}

module _ {Backend Connector Conn : Type 0} (create_connector : Backend → Result Status Connector)
    (connect : Connector → Uri → Attempt Conn) (backends : BackendList Backend) where
  -- Each URI has a connector: what comes of each URI.
  pub data Attempts : List Uri → List (Attempt Conn) → Type 0 where
    no_uri : Attempts [] []
    one_more :
        (u : Uri) (b : Connector) (us : List Uri) (xs : List (Attempt Conn))
        → connector_for create_connector connect backends u ≡ ok b
        → Attempts us xs
        → Attempts (u ∷ us) (connect b u ∷ xs)

  -- What an attempt leads to, if a failure leads to an ending.
  abbrev pub unless_failed : Attempt Conn → (Option Conn → Ending Conn) → Ending Conn
  unless_failed (throws s) failed =
      if is_success (code s) then on_connection s none else failed none
  unless_failed (calls_back s c) failed =
      if is_success (code s) then on_connection s c else failed c
  unless_failed (escapes text) failed = leaves (system_error text)

  -- The first attempt that succeeds, or that lets an error of asio escape, or a failure with what the
  -- last one gave.
  pub first_success : Attempt Conn → List (Attempt Conn) → Ending Conn
  first_success x [] =
      unless_failed x
        (on_connection (status connection_failure "Failed to connect to all the URIs."))
  first_success x (y ∷ ys) = let later = first_success y ys in unless_failed x (λ c. later)

  -- The next attempt, or the failure after the last one.
  abbrev go_on : List Uri → Ending Conn → Option Conn → Ending Conn
  go_on [] next = on_connection (status connection_failure "Failed to connect to all the URIs.")
  go_on (u ∷ us) next = λ c. next

  after_attempt_parts :
      (x : Attempt Conn) (rest : List Uri) (next : Ending Conn)
      → after_attempt create_connector connect backends x rest next
        ≡ unless_failed x (go_on rest next)
  unfolding after_attempt on_result
  after_attempt_parts (throws s) [] next = refl
  after_attempt_parts (throws s) (u ∷ us) next = refl
  after_attempt_parts (calls_back s c) [] next = refl
  after_attempt_parts (calls_back s c) (u ∷ us) next = refl
  after_attempt_parts (escapes text) rest next = refl

  async_connect_found :
      (u : Uri) (us : List Uri) (b : Connector)
      → connector_for create_connector connect backends u ≡ ok b
      → async_connect create_connector connect backends (u ∷ us)
        ≡ unless_failed
            (connect b u)
            (go_on us (async_connect create_connector connect backends us))
  unfolding async_connect
  async_connect_found u us b e =
      rw (e, async_connect)
        (after_attempt_parts (connect b u) us (async_connect create_connector connect backends us))

  -- When each URI has a connector, the connection is that of the first URI whose
  -- attempt succeeds; a failure is reported only when the attempt for every URI has failed, by an
  -- `MsgpackRPCException` or by a status. An error of asio that escapes from the attempt for a URI,
  -- when those before it have failed, ends the search.
  pub async_connect-Attempts :
      (u : Uri) (us : List Uri) (x : Attempt Conn) (xs : List (Attempt Conn))
      → Attempts (u ∷ us) (x ∷ xs)
      → async_connect create_connector connect backends (u ∷ us) ≡ first_success x xs
  unfolding first_success
  async_connect-Attempts u _ _ _ (one_more _ b _ _ e no_uri) = async_connect_found u [] b e
  async_connect-Attempts u _ _ _ (one_more _ b _ _ e (one_more v c vs ys f more)) =
      rw
        (
          async_connect_found u (v ∷ vs) b e,
          async_connect-Attempts v vs (connect c v) ys (one_more v c vs ys f more),
        )
        refl

  -- An attempt fails in a way that the search goes on after.
  abbrev pub Fails : Attempt Conn → Type 0
  Fails (throws s) = is_success (code s) ≡ false
  Fails (calls_back s c) = is_success (code s) ≡ false
  Fails (escapes text) = ⊥

  -- All the attempts for these URIs fail.
  pub data AllFail : List Uri → Type 0 where
    none_tried : AllFail []
    one_failed :
        (u : Uri) (b : Connector) (us : List Uri)
        → connector_for create_connector connect backends u ≡ ok b
        → Fails (connect b u)
        → AllFail us
        → AllFail (u ∷ us)

  unless_failed-go_on :
      (x : Attempt Conn) (us : List Uri) (u : Uri) (rest : List Uri) (next : Ending Conn)
      → Fails x
      → unless_failed x (go_on (us ++ u ∷ rest) next) ≡ next
  unless_failed-go_on (throws s) [] u rest next f = rw f refl
  unless_failed-go_on (throws s) (v ∷ us) u rest next f = rw f refl
  unless_failed-go_on (calls_back s c) [] u rest next f = rw f refl
  unless_failed-go_on (calls_back s c) (v ∷ us) u rest next f = rw f refl
  unless_failed-go_on (escapes text) us u rest next f = absurd f

  -- When the attempts for some URIs fail and no connector is made for the next one, because its scheme
  -- has no backend or its backend throws, the search ends there with an exception: the URIs after it
  -- are not tried and `on_connection_` is not called.
  pub async_connect-unknown :
      (us : List Uri) (u : Uri) (rest : List Uri) (s : Status)
      → AllFail us
      → connector_for create_connector connect backends u ≡ err s
      → async_connect create_connector connect backends (us ++ u ∷ rest)
        ≡ leaves (msgpack_rpc_exception s)
  unfolding async_connect
  async_connect-unknown _ u rest s none_tried e = rw (e, async_connect) refl
  async_connect-unknown _ u rest s (one_failed v b us f failed more) e =
      async_connect_found v (us ++ u ∷ rest) b f
      ∙ (unless_failed-go_on (connect b v) us u rest _ failed
          ∙ async_connect-unknown us u rest s more e)
