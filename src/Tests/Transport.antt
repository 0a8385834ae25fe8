-- ===== src/Tests/Transport.antt =====
-- Connections, the search for a server and the executor at concrete values.
use cpp_msgpack_rpc.Common.{
  false, ℕ, ◌≤◌, ◌+◌, ◌≡◌, refl, true, not, ◌&&◌, none, some, List, [], ◌∷◌, ok, err, arith,
  if◌then◌else◌, ◌==◌,
}
use cpp_msgpack_rpc.Status.{
  msgpack_rpc_exception, status, invalid_argument, connection_failure, no_error,
}
use cpp_msgpack_rpc.Messages.MessageParser.{new_parser, consumed}
use cpp_msgpack_rpc.Transport.StateMachine.{State}
use cpp_msgpack_rpc.Transport.Connection.{
  Connection, Effect, eof, broken_pipe, Event, read_done, write_done,
}
use cpp_msgpack_rpc.Transport.Connection.Parsing.{Run, run}
use cpp_msgpack_rpc.Transport.Connection.Chunking.{resume, run-consumed, run_total}
use cpp_msgpack_rpc.Transport.Connection.Closing.{
  closings, peer_closes, trace, closings-trace, closings_twice,
}
use cpp_msgpack_rpc.Addresses.Uri.{Uri}
use cpp_msgpack_rpc.Transport.AsyncConnect.{
  BackendList, Attempt, calls_back, throws, leaves, async_connect, connector_for, find, lookup,
}
use cpp_msgpack_rpc.Transport.AsyncConnect.Order.{
  no_uri, one_more, first_success, none_tried, one_failed, async_connect-Attempts,
  async_connect-unknown,
}
use cpp_msgpack_rpc.Transport.Acceptor
use cpp_msgpack_rpc.Transport.Acceptor.{
  Acceptor, stop_in_thread, mem, accepts, on_accept, accept_more, async_accept_next, append, forget,
  remove,
}
use cpp_msgpack_rpc.Transport.Acceptor.Stopping
use cpp_msgpack_rpc.Transport.Acceptor.Stopping.{
  is_open, is_stopped, accept_ends, destroyed, stop_runs, stop_in_thread-run, accept_after_stop,
}
use cpp_msgpack_rpc.Executors.GeneralExecutor.{
  new_executor, is_running, transport, callback, context, stop,
}
use cpp_msgpack_rpc.Executors.GeneralExecutor.Lifecycle
use cpp_msgpack_rpc.Executors.GeneralExecutor.Lifecycle.{any, is_start, is_end, is_running-run}
use cpp_msgpack_rpc.Executors.GeneralExecutor.Contexts.{
  contexts, round_robin, contexts-round_robin, context-stop,
}
use cpp_msgpack_rpc.Tests.Toy.{toy}
use cpp_msgpack_rpc.Tests.Laws.{toy-IsMsgpack}

-- The bytes of a notification whose parameters are an empty array, cut inside.
run-consumed_example :
    run toy (consumed (consumed (new_parser 8) (1 ∷ 3 ∷ 0 ∷ [])) (2 ∷ 1 ∷ 2 ∷ []))
    ≡ resume toy toy-IsMsgpack (run toy (consumed (new_parser 8) (1 ∷ 3 ∷ 0 ∷ []))) (2 ∷ 1 ∷ 2 ∷ [])
run-consumed_example =
    run-consumed toy toy-IsMsgpack (consumed (new_parser 8) (1 ∷ 3 ∷ 0 ∷ [])) (2 ∷ 1 ∷ 2 ∷ [])

run_total_example :
    (r : Run (List ℕ)) × (run toy (consumed (new_parser 8) (1 ∷ 3 ∷ 0 ∷ [])) ≡ some r)
run_total_example = run_total toy toy-IsMsgpack (consumed (new_parser 8) (1 ∷ 3 ∷ 0 ∷ []))

abbrev open_connection : Connection
open_connection = record { state = State.processing; parser = new_parser 8; has_callbacks = true }

abbrev both_close : List (Event toy)
both_close = read_done (some eof) [] ∷ write_done (some broken_pipe) ∷ []

closings-trace_example :
    (d : Connection) × (effects : List (Effect (List ℕ))) × (trace toy open_connection both_close
      ≡ some (d, effects))
    × (closings effects ≤ 1 + peer_closes both_close)
closings-trace_example = closings-trace toy toy-IsMsgpack open_connection both_close

closings_twice_example :
    (d : Connection) × (effects : List (Effect (List ℕ))) × (trace toy open_connection both_close
      ≡ some (d, effects))
    × (closings effects ≡ 2)
closings_twice_example =
    closings_twice toy toy-IsMsgpack open_connection eof broken_pipe [] refl refl refl

-- A backend for one scheme, whose connector reaches the second URI only.
abbrev backends : BackendList ℕ
backends = ("tcp", 1) ∷ []

abbrev first_uri : Uri
first_uri = record { scheme = "tcp"; host_or_path = "a"; port_number = some 1 }

abbrev second_uri : Uri
second_uri = record { scheme = "tcp"; host_or_path = "b"; port_number = some 2 }

abbrev strange_uri : Uri
strange_uri = record { scheme = "ftp"; host_or_path = "c"; port_number = none }

abbrev refused : Attempt ℕ
refused = throws (status connection_failure "refused")

abbrev reached : Attempt ℕ
reached = calls_back no_error (some 9)

abbrev connect : ℕ → Uri → Attempt ℕ
connect b u = elim u.port_number [ some n ↦ if n == 2 then reached else refused | none ↦ refused ]

tcp_found : (u : Uri) → u.scheme ≡ "tcp" → connector_for ok connect backends u ≡ ok 1
unfolding connector_for find lookup
tcp_found u e = rw (e, connector_for, find, lookup) refl

ftp_unknown :
    connector_for ok connect backends strange_uri
    ≡ err (status invalid_argument "Invalid scheme: ftp.")
unfolding connector_for find lookup
ftp_unknown = refl

async_connect-Attempts_example :
    async_connect ok connect backends (first_uri ∷ second_uri ∷ [])
    ≡ first_success ok connect backends refused (reached ∷ [])
async_connect-Attempts_example =
    async_connect-Attempts ok connect backends first_uri (second_uri ∷ []) refused (reached ∷ []) (
      one_more first_uri 1 (second_uri ∷ []) (reached ∷ []) (tcp_found first_uri refl)
        (one_more second_uri 1 [] [] (tcp_found second_uri refl) no_uri))

-- The second URI would have been reached.
async_connect-unknown_example :
    async_connect ok connect backends (first_uri ∷ strange_uri ∷ second_uri ∷ [])
    ≡ leaves (msgpack_rpc_exception (status invalid_argument "Invalid scheme: ftp."))
async_connect-unknown_example =
    async_connect-unknown ok connect backends (first_uri ∷ []) strange_uri (second_uri ∷ [])
      (status invalid_argument "Invalid scheme: ftp.")
      (one_failed first_uri 1 [] (tcp_found first_uri refl) refl none_tried) ftp_unknown

is_running-run_example :
    is_running
      (Lifecycle.run (new_executor {Exn = ℕ} 1 2) (Lifecycle.starts true ∷ Lifecycle.throws 5 ∷ []))
    ≡ (any {Exn = ℕ} is_start (Lifecycle.starts true ∷ Lifecycle.throws 5 ∷ [])
        && not (any {Exn = ℕ} is_end (Lifecycle.starts true ∷ Lifecycle.throws 5 ∷ [])))
is_running-run_example =
    is_running-run {Exn = ℕ} 1 2 (Lifecycle.starts true ∷ Lifecycle.throws 5 ∷ [])

contexts-round_robin_example :
    contexts {Exn = ℕ} 3 callback (new_executor 1 2) ≡ some (round_robin 3 0 2)
contexts-round_robin_example =
    contexts-round_robin {Exn = ℕ} 3 callback (new_executor 1 2) (omega arith) (omega arith)

context-stop_example : context {Exn = ℕ} transport (stop (new_executor 1 2)) ≡ none
context-stop_example = context-stop {Exn = ℕ} transport (new_executor 1 2) refl

-- An acceptor with two connections, of which one is destroyed before the stop.
abbrev acceptor : Acceptor
acceptor = record { state = State.processing; connection_list = 1 ∷ []; is_unix = true }

not_stopped :
    is_stopped (Stopping.run acceptor (accept_ends true (accepts 2) ∷ destroyed 1 ∷ [])).0.state
    ≡ false
unfolding Stopping.run Stopping.step on_accept accept_more async_accept_next forget
not_stopped = refl

stop_in_thread-run_example :
    Stopping.closes 1
      (stop_in_thread
        (Stopping.run acceptor (accept_ends true (accepts 2) ∷ destroyed 1 ∷ [])).0).effects
    ≡ is_open 1 (mem 1 acceptor.connection_list) (accept_ends true (accepts 2) ∷ destroyed 1 ∷ [])
stop_in_thread-run_example =
    stop_in_thread-run acceptor (accept_ends true (accepts 2) ∷ destroyed 1 ∷ []) 1 not_stopped

accept_after_stop_example :
    ((Stopping.step (stop_in_thread acceptor).acceptor (accept_ends true (accepts 2))).effects
      ≡ Acceptor.on_connection 2 ∷ [])
    × (Stopping.closes 2
          (Stopping.run
            (stop_in_thread acceptor).acceptor
            (accept_ends true (accepts 2) ∷ stop_runs ∷ [])).1
        ≡ false)
accept_after_stop_example = accept_after_stop acceptor true 2 (stop_runs ∷ [])
