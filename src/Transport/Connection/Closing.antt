-- ===== src/Transport/Connection/Closing.antt =====
-- connection.h: how often a connection reports that it is closed.
use mathlib.Core.List.{map}
use cpp_msgpack_rpc.Common.{
  ℕ, suc, ◌+◌, ◌≤◌, ◌≡◌, refl, true, Option, none, some, List, [], ◌∷◌, ◌++◌, String, arith,
}
use cpp_msgpack_rpc.Status.{Status, no_error}
use cpp_msgpack_rpc.Messages.Msgpack.{Msgpack, IsMsgpack}
use cpp_msgpack_rpc.Messages.Parsed.{ParsedMessage}
use cpp_msgpack_rpc.Messages.MessageParser.{consumed}
use cpp_msgpack_rpc.Transport.StateMachine.{
  State, stopped, handle_start_request, handle_processing_started, handle_stop_requested,
  handle_processing_stopped,
}
use cpp_msgpack_rpc.Transport.Connection.Parsing.{Run, run}
use cpp_msgpack_rpc.Transport.Connection.Chunking.{run_total}
use cpp_msgpack_rpc.Transport.Connection.{
  Connection, Effect, IoError, operation_aborted, eof, connection_reset, broken_pipe, other, Step,
  Event, quietly, starts, closes, close_runs, read_runs, sends, send_runs, read_done, write_done,
  received, closed, close_in_thread, start, async_send, async_close, async_read_next,
  async_send_in_thread, on_error, on_sent, after_run, finish_read, read_bytes, process_read_bytes,
  step,
}

module _ {Object : Type 0} where
  -- How many of the effects report a close.
  abbrev pub closings : List (Effect Object) → ℕ
  closings [] = 0
  closings (closed s ∷ es) = suc (closings es)
  closings (_ ∷ es) = closings es

  closings-append : (xs ys : List (Effect Object)) → closings (xs ++ ys) ≡ closings xs + closings ys
  closings-append [] ys = omega arith
  closings-append (closed s ∷ xs) ys = omega (arith, closings-append xs ys)
  closings-append (_ ∷ xs) ys = closings-append xs ys

  closings-received : (ms : List (ParsedMessage Object)) → closings (map received ms) ≡ 0
  closings-received [] = refl
  closings-received (m ∷ ms) = closings-received ms

-- A connection that has not stopped has one close to report.
abbrev pub due : State → ℕ
due stopped = 0
due _ = 1

abbrev pub error_closes : Option IoError → ℕ
error_closes (some eof) = 1
error_closes (some connection_reset) = 1
error_closes (some broken_pipe) = 1
error_closes _ = 0

abbrev pub event_closes : {M : Msgpack} → Event M → ℕ
event_closes (read_done e bytes) = error_closes e
event_closes (write_done e) = error_closes e
event_closes _ = 0

-- How many completions report that the peer has closed the connection.
abbrev pub peer_closes : {M : Msgpack} → List (Event M) → ℕ
peer_closes [] = 0
peer_closes (e ∷ es) = event_closes e + peer_closes es

-- The effects of some events in turn.
pub trace :
    (M : Msgpack) → Connection → List (Event M) → Option (Connection × List (Effect M.Object))
trace M c [] = some (c, [])
trace M c (e ∷ es) = elim (step M c e) [
  | none ↦ none
  | some s ↦ elim (trace M s.connection es) [
    | none ↦ none
    | some (d, later) ↦ some (d, s.effects ++ later)
  ]
]

abbrev Pays : {Object : Type 0} → Connection → ℕ → Step Object → Type 0
Pays c extra s = closings s.effects + due s.connection.state ≤ due c.state + extra

module _ (Object : Type 0) where
  close_in_thread-Pays :
      (c : Connection) (s : Status) → Pays {Object = Object} c 0 (close_in_thread c s)
  unfolding close_in_thread handle_stop_requested
  close_in_thread-Pays c s = ground arith

  after_run-Pays : (c : Connection) (e : Option Status) → Pays {Object = Object} c 0 (after_run c e)
  unfolding after_run async_read_next
  after_run-Pays c (some e) = close_in_thread-Pays c e
  after_run-Pays c none = ground arith

  finish_read-Pays : (c : Connection) (r : Run Object) → Pays c 0 (finish_read c r)
  unfolding finish_read
  finish_read-Pays c r = omega (
    arith,
    closings-append (map received r.messages)
        (after_run (record c { parser = r.parser }) r.failure).effects,
    closings-received r.messages,
    after_run-Pays (record c { parser = r.parser }) r.failure,
  )

  start-Pays : (c : Connection) → Pays {Object = Object} c 0 (start c)
  unfolding start handle_start_request handle_processing_started
  start-Pays c = ground arith

  async_send-Pays : (c : Connection) (m : List ℕ) → Pays {Object = Object} c 0 (async_send c m)
  unfolding async_send
  async_send-Pays c m = ground arith

  on_error-Pays :
      (text : String) (c : Connection) (e : IoError)
      → Pays {Object = Object} c (error_closes (some e)) (on_error text c e)
  unfolding on_error handle_processing_stopped
  on_error-Pays text c operation_aborted = ground arith
  on_error-Pays text c (other m) = ground arith
  on_error-Pays text c _ = ground arith

  -- A completion that sees the peer's close reports it, whatever the state.
  on_error_reports :
      (text : String) (c : Connection) (e : IoError)
      → c.has_callbacks ≡ true
      → error_closes (some e) ≡ 1
      → on_error {Object = Object} text c e
        ≡ quietly (record c { state = stopped }) (closed no_error ∷ [])
  unfolding on_error handle_processing_stopped
  on_error_reports text c operation_aborted has h = absurd (omega arith)
  on_error_reports text c (other m) has h = absurd (omega arith)
  on_error_reports text c _ has h = ground arith

module _ (M : Msgpack) (laws : IsMsgpack M) where
  abbrev StepPays : Connection → Event M → Option (Step M.Object) → Type 0
  StepPays c e r = (s : Step M.Object) × (r ≡ some s) × Pays c (event_closes e) s

  process_read_bytes-finish_read :
      (c : Connection) (bytes : List ℕ) (r : Run M.Object)
      → run M (consumed c.parser bytes) ≡ some r
      → process_read_bytes M c none bytes ≡ some (finish_read c r)
  unfolding process_read_bytes
  process_read_bytes-finish_read c bytes r e = rw (e, read_bytes)

  step-StepPays : (c : Connection) (e : Event M) → StepPays c e (step M c e)
  unfolding step process_read_bytes
  step-StepPays c starts = (start c, refl, start-Pays M.Object c)
  step-StepPays c closes = (async_close c, refl, unfold async_close in omega arith)
  step-StepPays c close_runs = (_, refl, close_in_thread-Pays M.Object c no_error)
  step-StepPays c read_runs = (async_read_next c, refl, unfold async_read_next in omega arith)
  step-StepPays c (sends m) = (_, refl, async_send-Pays M.Object c m)
  step-StepPays c (send_runs m) =
      (async_send_in_thread c m, refl, unfold async_send_in_thread in omega arith)
  step-StepPays c (write_done none) = (on_sent c none, refl, unfold on_sent in omega arith)
  step-StepPays c (write_done (some e)) = (_, refl, unfold on_sent in on_error-Pays M.Object _ c e)
  step-StepPays c (read_done (some e) bytes) =
      (_, refl, unfold process_read_bytes in on_error-Pays M.Object _ c e)
  step-StepPays c (read_done none bytes) =
      let (r, e) = run_total M laws (consumed c.parser bytes) in
      (finish_read c r, process_read_bytes-finish_read c bytes r e, finish_read-Pays M.Object c r)

  abbrev pub Paid :
      Connection → List (Event M) → Option (Connection × List (Effect M.Object)) → Type 0
  Paid c es r =
      (d : Connection) × (effects : List (Effect M.Object)) × (r ≡ some (d, effects))
      × (closings effects + due d.state ≤ due c.state + peer_closes es)

  trace-Paid : (c : Connection) (es : List (Event M)) → Paid c es (trace M c es)
  unfolding trace
  trace-Paid c [] = (c, [], refl, omega arith)
  trace-Paid c (e ∷ es) =
      let (s, es', p) = step-StepPays c e in
      let (d, later, ts, q) = trace-Paid s.connection es in
      (
        d,
        s.effects ++ later,
        rw (es', trace, ts),
        omega (arith, closings-append s.effects later, p, q),
      )

  -- Whatever happens to a connection, its handlers run to their end, and the callback for a close
  -- is called at most once more than a completion sees the close by the peer, if the library keeps
  -- its laws.
  pub closings-trace :
      (c : Connection) (es : List (Event M))
      → (d : Connection) × (effects : List (Effect M.Object)) × (trace M c es ≡ some (d, effects))
        × (closings effects ≤ 1 + peer_closes es)
  closings-trace c es =
      let (d, effects, e, p) = trace-Paid c es in (d, effects, e, ground (arith, p))

  -- Where a started connection meets the close by the peer in a read and then in a write, the
  -- callback for a close is called twice.
  pub closings_twice :
      (c : Connection) (e f : IoError) (bytes : List ℕ)
      → c.has_callbacks ≡ true
      → error_closes (some e) ≡ 1
      → error_closes (some f) ≡ 1
      → (d : Connection) × (effects : List (Effect M.Object)) × (trace M c
            (read_done (some e) bytes ∷ write_done (some f) ∷ [])
          ≡ some (d, effects))
        × (closings effects ≡ 2)
  unfolding trace step process_read_bytes on_sent
  closings_twice c e f bytes has he hf = (
    record c { state = stopped },
    closed no_error ∷ closed no_error ∷ [],
    rw (
      on_error_reports M.Object "Error occurred when receiving data: " c e has he,
      on_error_reports M.Object "Error occurred when sending data: " (record c { state = stopped })
          f has hf,
    ),
    refl,
  )
