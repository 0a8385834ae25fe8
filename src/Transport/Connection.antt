-- ===== src/Transport/Connection.antt =====
-- connection.h: a connection, with its handlers as functions of its state. A handler answers with
-- the new state, with what it asks of the socket, the executor and the callbacks, in order, and
-- with the exception that leaves it. The callbacks for received messages do not throw.
pub mod Parsing
pub mod Chunking
pub mod Closing
use Prim.Native.String.{◌++◌ as ◌<>◌}
use cpp_msgpack_rpc.Common.{
  ℕ, Bool, true, false, Option, none, some, String, List, [], ◌∷◌, ◌++◌, map, if◌then◌else◌, Result,
  ok, err,
}
use cpp_msgpack_rpc.Status.{Status, status, no_error, unexpected_error}
use cpp_msgpack_rpc.Messages.Msgpack.{Msgpack}
use cpp_msgpack_rpc.Messages.Parsed.{ParsedMessage}
use cpp_msgpack_rpc.Messages.MessageParser.{MessageParser, consumed, prepare_buffer}
use cpp_msgpack_rpc.Transport.StateMachine.{
  State, handle_start_request, handle_processing_started, handle_stop_requested,
  handle_processing_stopped, is_processing,
}
use Parsing.{Run, run}

-- The error codes that the handlers tell apart; any other has a message.
pub data IoError : Type 0 where
  operation_aborted eof connection_reset broken_pipe : IoError
  other : String → IoError

pub record Connection : Type 0 where
  pub state : State
  pub parser : MessageParser
  -- Whether `start` has stored the callbacks.
  pub has_callbacks : Bool

pub data Effect (Object : Type 0) : Type 0 where
  -- `asio::post` of the later part of an operation.
  post_read : Effect Object
  post_send : List ℕ → Effect Object
  post_close : Effect Object
  -- `async_read_some` into a buffer of this size, `async_write`, and the three calls that close.
  read_some : ℕ → Effect Object
  write_bytes : List ℕ → Effect Object
  close_socket : Effect Object
  -- The callbacks.
  received : ParsedMessage Object → Effect Object
  sent : Effect Object
  closed : Status → Effect Object

pub data Thrown : Type 0 where
  rpc_exception : Status → Thrown
  bad_function_call : Thrown

pub record Step (Object : Type 0) : Type 0 where
  pub connection : Connection
  pub effects : List (Effect Object)
  pub thrown : Option Thrown

module _ {Object : Type 0} where
  abbrev pub quietly : Connection → List (Effect Object) → Step Object
  quietly c effects = record { connection = c; effects = effects; thrown = none }

  -- `on_closed_(status)`, with `before` done first. An empty function throws.
  report_closed : Connection → List (Effect Object) → Status → Step Object
  report_closed c before s =
      if c.has_callbacks
      then record { connection = c; effects = before ++ closed s ∷ []; thrown = none }
      else record { connection = c; effects = before; thrown = some bad_function_call }

  close_if : Connection → Status → State × Bool → Step Object
  close_if c s (state, false) = quietly (record c { state = state }) []
  close_if c s (state, true) = report_closed (record c { state = state }) (close_socket ∷ []) s

  -- `close_socket` stands for the three calls on the socket, taken not to throw; if one did, the
  -- callback would not be called.
  pub close_in_thread : Connection → Status → Step Object
  unfolding close_if report_closed
  close_in_thread c s = close_if c s (handle_stop_requested c.state)

  start_if : Connection → Result Status State → Step Object
  start_if c (err e) = record { connection = c; effects = []; thrown = some (rpc_exception e) }
  start_if c (ok state) =
      quietly (record c { state = handle_processing_started state; has_callbacks = true })
        (post_read ∷ [])

  pub start : Connection → Step Object
  unfolding start_if
  start c = start_if c (handle_start_request c.state)

  pub async_send : Connection → List ℕ → Step Object
  async_send c message = quietly c (if is_processing c.state then post_send message ∷ [] else [])

  pub async_close : Connection → Step Object
  async_close c = quietly c (post_close ∷ [])

  pub async_read_next : Connection → Step Object
  async_read_next c = quietly c (read_some (prepare_buffer c.parser) ∷ [])

  pub async_send_in_thread : Connection → List ℕ → Step Object
  async_send_in_thread c message = quietly c (write_bytes message ∷ [])

  -- The error branch that the two completion handlers share, but for the text.
  on_error : String → Connection → IoError → Step Object
  unfolding report_closed
  on_error text c operation_aborted = quietly c []
  on_error text c eof =
      report_closed (record c { state = handle_processing_stopped c.state }) [] no_error
  on_error text c connection_reset =
      report_closed (record c { state = handle_processing_stopped c.state }) [] no_error
  on_error text c broken_pipe =
      report_closed (record c { state = handle_processing_stopped c.state }) [] no_error
  on_error text c (other m) = record {
    connection = c;
    effects = [];
    thrown = some (rpc_exception (status unexpected_error (text <> m)));
  }

  pub on_sent : Connection → Option IoError → Step Object
  unfolding on_error
  on_sent c none = quietly c (sent ∷ [])
  on_sent c (some e) = on_error "Error occurred when sending data: " c e

  -- What follows the messages that the loop has handed over.
  after_run : Connection → Option Status → Step Object
  after_run c (some e) = close_in_thread c e
  after_run c none = if is_processing c.state then async_read_next c else quietly c []

  finish_read : Connection → Run Object → Step Object
  finish_read c r =
      let last = after_run (record c { parser = r.parser }) r.failure in
      record last { effects = map received r.messages ++ last.effects }

module _ (M : Msgpack) where
  read_bytes : Connection → Option (Run M.Object) → Option (Step M.Object)
  read_bytes c none = none
  read_bytes c (some r) = some (finish_read c r)

  -- `none` is a loop that has run out of fuel.
  pub process_read_bytes : Connection → Option IoError → List ℕ → Option (Step M.Object)
  unfolding read_bytes on_error
  process_read_bytes c (some e) bytes = some (on_error "Error occurred when receiving data: " c e)
  process_read_bytes c none bytes = read_bytes c (run M (consumed c.parser bytes))

  -- What can happen to a connection: its operations, and the tasks and completions that they ask
  -- for.
  pub data Event : Type 0 where
    starts closes close_runs read_runs : Event
    sends send_runs : List ℕ → Event
    read_done : Option IoError → List ℕ → Event
    write_done : Option IoError → Event

  pub step : Connection → Event → Option (Step M.Object)
  step c starts = some (start c)
  step c closes = some (async_close c)
  step c close_runs = some (close_in_thread c no_error)
  step c read_runs = some (async_read_next c)
  step c (sends message) = some (async_send c message)
  step c (send_runs message) = some (async_send_in_thread c message)
  step c (read_done e bytes) = process_read_bytes c e bytes
  step c (write_done e) = some (on_sent c e)
