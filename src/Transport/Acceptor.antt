-- ===== src/Transport/Acceptor.antt =====
-- transport/acceptor.h, transport/connection_list.h: an acceptor takes connections until it is
-- stopped, and keeps a list of those that are open. A connection is known by a number.
pub mod Stopping
use cpp_msgpack_rpc.Common.{
  ℕ, Bool, true, false, Option, none, some, String, List, [], ◌∷◌, ◌++◌, map, ◌==◌, if◌then◌else◌,
  Result, ok, err,
}
use Prim.Native.String.{◌++◌ as ◌+++◌}
use cpp_msgpack_rpc.Status.{Status, status, unexpected_error, precondition_not_met}
use cpp_msgpack_rpc.Transport.StateMachine.{
  State, handle_start_request, handle_processing_started, handle_stop_requested, is_processing,
}

-- `ConnectionList`: `append` and `remove`; the list holds weak pointers to connections that remove
-- themselves when they are destroyed.
abbrev pub mem : ℕ → List ℕ → Bool
mem i [] = false
mem i (j ∷ js) = let rest = mem i js in if j == i then true else rest

unfoldable pub append : List ℕ → ℕ → List ℕ
append cs i = if mem i cs then cs else i ∷ cs

unfoldable pub remove : ℕ → List ℕ → List ℕ
remove i [] = []
remove i (j ∷ js) = let rest = remove i js in if j == i then rest else j ∷ rest

pub record Acceptor : Type 0 where
  pub state : State
  pub connection_list : List ℕ
  -- Whether the address is that of a Unix socket.
  pub is_unix : Bool

pub data Effect : Type 0 where
  -- `asio::post` of a later part, and the calls of the acceptor of asio.
  post_accept post_stop : Effect
  async_accept cancel close : Effect
  -- `async_close` of a connection in the list, the callback for a new one, and the removal of the
  -- file of a Unix socket.
  close_connection on_connection : ℕ → Effect
  remove_file : Effect

pub record Step : Type 0 where
  pub acceptor : Acceptor
  pub effects : List Effect
  pub thrown : Option Status

abbrev pub quietly : Acceptor → List Effect → Step
quietly a effects = record { acceptor = a; effects = effects; thrown = none }

unfoldable pub start_if : Acceptor → Result Status State → Step
start_if a (err s) = record { acceptor = a; effects = []; thrown = some s }
start_if a (ok state) =
    quietly (record a { state = handle_processing_started state }) (post_accept ∷ [])

unfoldable pub start : Acceptor → Step
unfolding start_if
start a = start_if a (handle_start_request a.state)

unfoldable pub stop : Acceptor → Step
stop a = quietly a (post_stop ∷ [])

-- With whether the executor still exists.
unfoldable pub async_accept_next : Bool → Acceptor → List Effect → Step
async_accept_next true a before = quietly a (before ++ async_accept ∷ [])
async_accept_next false a before = record {
  acceptor = a;
  effects = before;
  thrown = some (status precondition_not_met "Executor is not set.");
}

-- How a call of `async_accept` ends.
pub data Accepted : Type 0 where
  operation_aborted : Accepted
  fails : String → Accepted
  accepts : ℕ → Accepted

unfoldable pub accept_more : Bool → Acceptor → List Effect → Step
unfolding async_accept_next
accept_more alive a before =
    if is_processing a.state then async_accept_next alive a before else quietly a before

unfoldable pub on_accept : Bool → Acceptor → Accepted → Step
unfolding accept_more
on_accept alive a operation_aborted = quietly a []
on_accept alive a (fails text) = record {
  acceptor = a;
  effects = [];
  thrown = some (status unexpected_error ("Error occurred when accepting a connection: " +++ text));
}
on_accept alive a (accepts i) =
    accept_more alive (record a { connection_list = append a.connection_list i })
      (on_connection i ∷ [])

unfoldable pub stop_effects : Acceptor → List Effect
stop_effects a =
    cancel
    ∷ close
    ∷ (map close_connection a.connection_list ++ (if a.is_unix then remove_file ∷ [] else []))

unfoldable pub stop_if : Acceptor → State × Bool → Step
unfolding stop_effects
stop_if a (state, false) = quietly (record a { state = state }) []
stop_if a (state, true) = quietly (record a { state = state }) (stop_effects a)

unfoldable pub stop_in_thread : Acceptor → Step
unfolding stop_if
stop_in_thread a = stop_if a (handle_stop_requested a.state)

-- A connection that is destroyed takes itself off the list.
unfoldable pub forget : Acceptor → ℕ → Acceptor
forget a i = record a { connection_list = remove i a.connection_list }
