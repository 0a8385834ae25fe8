-- ===== src/Executors/GeneralExecutor.antt =====
-- general_executor.cpp: threads for the transport and for callbacks, each with a context. `Exn` is
-- the type of the exceptions that tasks throw.
pub mod Lifecycle
pub mod Contexts
use cpp_msgpack_rpc.Common.{
  ℕ, zero, suc, ◌+◌, ◌%◌, ◌^◌, Bool, true, false, not, ◌&&◌, Option, none, some, List, [], ◌∷◌, map,
  if◌then◌else◌, Result, ok, err,
}
use cpp_msgpack_rpc.Status.{Status, status, precondition_not_met}

pub data OperationType : Type 0 where
  transport callback : OperationType

pub record GeneralExecutor (Exn : Type 0) : Type 0 where
  -- The lengths of the two vectors of contexts with their threads.
  pub num_transport : ℕ
  pub num_callback : ℕ
  pub transport_context_index : ℕ
  pub callback_context_index : ℕ
  pub is_started : Bool
  pub is_stopped : Bool
  pub exception_in_thread : Option Exn
  -- How many exception callbacks there are.
  pub num_exception_callbacks : ℕ

-- What `start` throws: its own exception, or that of a thread which cannot be made.
pub data StartError : Type 0 where
  already_started : Status → StartError
  no_thread : StartError

-- `get_context_index`: the index and the counter after it; `none` is a remainder by 0.
unfoldable pub get_context_index : ℕ → ℕ → Option (ℕ × ℕ)
get_context_index index zero = none
get_context_index index (suc n) = some (index % suc n, (index + 1) % 2 ^ 64)

module _ {Exn : Type 0} where
  abbrev pub new_executor : ℕ → ℕ → GeneralExecutor Exn
  new_executor num_transport num_callback = record {
    num_transport = num_transport;
    num_callback = num_callback;
    transport_context_index = 0;
    callback_context_index = 0;
    is_started = false;
    is_stopped = false;
    exception_in_thread = none;
    num_exception_callbacks = 0;
  }

  -- With whether the threads can be made; if not, those made are stopped again.
  unfoldable pub start :
      Bool → GeneralExecutor Exn → GeneralExecutor Exn × Result StartError (Unit {0})
  start can_spawn e =
      if e.is_started
      then (
        e,
        err (
            already_started
              (status precondition_not_met "An executor must not be run multiple times.")),
      )
      else (record e { is_started = true }, if can_spawn then ok tt else err no_thread)

  -- What is left when `stop` returns: the threads are joined, and the contexts removed.
  unfoldable pub stop : GeneralExecutor Exn → GeneralExecutor Exn
  stop e =
      if e.is_stopped
      then e
      else record e { is_stopped = true; num_transport = 0; num_callback = 0 }

  -- `stop` with whether the threads end, which they do when nothing is pending in their contexts. An
  -- executor with threads that do not end is marked, and `stop` waits for them: false.
  unfoldable pub try_stop : Bool → GeneralExecutor Exn → GeneralExecutor Exn × Bool
  unfolding stop
  try_stop ends e =
      if e.is_stopped
      then (e, true)
      else if e.is_started && not ends
      then (record e { is_stopped = true }, false)
      else (stop e, true)

  unfoldable pub context : OperationType → GeneralExecutor Exn → Option (ℕ × GeneralExecutor Exn)
  unfolding get_context_index
  context transport e = elim (get_context_index e.transport_context_index e.num_transport) [
    | none ↦ none
    | some (i, next) ↦ some (i, record e { transport_context_index = next })
  ]
  context callback e = elim (get_context_index e.callback_context_index e.num_callback) [
    | none ↦ none
    | some (i, next) ↦ some (i, record e { callback_context_index = next })
  ]

  abbrev pub last_exception : GeneralExecutor Exn → Option Exn
  last_exception e = e.exception_in_thread

  unfoldable pub on_exception : GeneralExecutor Exn → GeneralExecutor Exn
  on_exception e = record e { num_exception_callbacks = suc e.num_exception_callbacks }

  unfoldable pub is_running : GeneralExecutor Exn → Bool
  is_running e = elim e.exception_in_thread [
    | some x ↦ false
    | none ↦ e.is_started && not e.is_stopped
  ]

  -- The handler of `run_in_thread` for an exception; with how many callbacks are called.
  unfoldable pub handle_exception : Exn → GeneralExecutor Exn → GeneralExecutor Exn × ℕ
  handle_exception x e = (record e { exception_in_thread = some x }, e.num_exception_callbacks)
