-- ===== src/Transport/AsyncConnect/Beginning.antt =====
-- async_connect.h: a search that begins with a URI does not begin at the end of the list.
use cpp_msgpack_rpc.Common.{◌≡◌, ◌≢◌, refl, List, [], ◌∷◌, Result, ok, err}
use cpp_msgpack_rpc.Status.{Status}
use cpp_msgpack_rpc.Addresses.Uri.{Uri}
use cpp_msgpack_rpc.Transport.AsyncConnect.{
  BackendList, connector_for, Attempt, throws, escapes, calls_back, Begun, begun, no_uri, begin,
  begin_after,
}

module _ {Backend Connector Conn : Type 0} (create_connector : Backend → Result Status Connector)
    (connect : Connector → Uri → Attempt Conn) where
  begin_after-some :
      (a : Attempt Conn) (us : List Uri) (backends : BackendList Backend) (next : Begun)
      → (us ≢ [] → next ≢ no_uri)
      → begin_after create_connector connect backends a us next ≢ no_uri
  unfolding begin_after
  begin_after-some (calls_back s c) us backends next h = λ e. cc
  begin_after-some (escapes text) us backends next h = λ e. cc
  begin_after-some (throws s) [] backends next h = λ e. cc
  begin_after-some (throws s) (u ∷ us) backends next h = h (λ e. cc)

  pub begin-some :
      (backends : BackendList Backend) (us : List Uri)
      → us ≢ []
      → begin create_connector connect backends us ≢ no_uri
  unfolding begin
  begin-some backends [] some_uri = absurd (some_uri refl)
  begin-some backends (u ∷ us) some_uri =
      by_connector (begin-some backends us) (connector_for create_connector connect backends u) refl
    where
      by_connector :
          (us ≢ [] → begin create_connector connect backends us ≢ no_uri)
          → (r : Result Status Connector) → connector_for create_connector connect backends u ≡ r
          → begin create_connector connect backends (u ∷ us) ≢ no_uri
      by_connector more (ok c) e =
          rw (begin, e)
            (begin_after-some (connect c u) us backends (begin create_connector connect backends us)
              more)
      by_connector more (err s) e = rw (begin, e) (λ g. cc)

  pub begun-some :
      (backends : BackendList Backend) (us : List Uri)
      → begin create_connector connect backends us ≡ begun
      → us ≢ []
  unfolding begin
  begun-some backends us e empty = let wrong : no_uri ≡ begun = rw empty at e in cc
