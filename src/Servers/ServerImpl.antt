-- ===== src/Servers/ServerImpl.antt =====
-- servers/impl/server_impl.h: a server, whose operations are called one at a time. Each acceptor is
-- named by its place in the list; a pointer that was reset is `none`, and following it is a fault.
pub mod Lifecycle
use cpp_msgpack_rpc.Common.{
  ℕ, Bool, true, false, Option, none, some, List, [], ◌∷◌, ◌++◌, map, if◌then◌else◌, Result, ok,
  err,
}
use cpp_msgpack_rpc.Status.{Status, status, precondition_not_met}
use cpp_msgpack_rpc.Executors.GeneralExecutor
use cpp_msgpack_rpc.Executors.GeneralExecutor.{GeneralExecutor, StartError, last_exception}

pub record ServerImpl (Exn : Type 0) : Type 0 where
  pub acceptors : List ℕ
  pub has_processor : Bool
  pub executor : Option (GeneralExecutor Exn)
  pub is_started : Bool
  pub is_stopped : Bool

-- The calls that a server makes, in order.
pub data Effect : Type 0 where
  starts_acceptor : ℕ → Effect
  stops_acceptor : ℕ → Effect
  starts_executor : Effect
  stops_executor : Effect

-- How an operation ends; `rethrows` is the exception of a thread of the executor.
pub data Answer (Exn : Type 0) : Type 0 where
  returns : Answer Exn
  throws : Status → Answer Exn
  start_fails : StartError → Answer Exn
  rethrows : Exn → Answer Exn
  faults : Answer Exn

-- The server after an operation, the calls it made and how it ended.
pub record Outcome (Exn : Type 0) : Type 0 where
  pub server : ServerImpl Exn
  pub effects : List Effect
  pub answer : Answer Exn

module _ {Exn : Type 0} where
  abbrev pub new_server : List ℕ → GeneralExecutor Exn → ServerImpl Exn
  new_server acceptors e = record {
    acceptors = acceptors;
    has_processor = true;
    executor = some e;
    is_started = false;
    is_stopped = false;
  }

  abbrev pub outcome : ServerImpl Exn → List Effect → Answer Exn → Outcome Exn
  outcome s effects answer = record { server = s; effects = effects; answer = answer }

  unfoldable pub started :
      ServerImpl Exn
      → List Effect
      → GeneralExecutor Exn × Result StartError (Unit {0})
      → Outcome Exn
  started s effects (e, ok u) =
      outcome (record s { executor = some e }) (effects ++ starts_executor ∷ []) returns
  started s effects (e, err x) =
      outcome (record s { executor = some e }) (effects ++ starts_executor ∷ []) (start_fails x)

  -- The acceptors are started, the callback for exceptions is added and the executor is started.
  unfoldable pub start_parts : Bool → ServerImpl Exn → Option (GeneralExecutor Exn) → Outcome Exn
  unfolding started
  start_parts can_spawn s none = outcome s (map starts_acceptor s.acceptors) faults
  start_parts can_spawn s (some e) =
      started s (map starts_acceptor s.acceptors)
        (GeneralExecutor.start can_spawn (GeneralExecutor.on_exception e))

  -- With whether the executor can make its threads.
  unfoldable pub start : Bool → ServerImpl Exn → Outcome Exn
  unfolding start_parts
  start can_spawn s =
      if s.is_started
      then outcome s []
          (throws (status precondition_not_met "This server has already been started."))
      else start_parts can_spawn (record s { is_started = true }) s.executor

  unfoldable pub stop_parts : ServerImpl Exn → Option (GeneralExecutor Exn) → Outcome Exn
  stop_parts s none =
      outcome (record s { acceptors = []; has_processor = false }) (map stops_acceptor s.acceptors)
        faults
  stop_parts s (some e) =
      outcome (record s { acceptors = []; has_processor = false; executor = none })
        (map stops_acceptor s.acceptors ++ stops_executor ∷ []) returns

  unfoldable pub stop : ServerImpl Exn → Outcome Exn
  unfolding stop_parts
  stop s =
      if s.is_started
      then if s.is_stopped
        then outcome s [] returns
        else stop_parts (record s { is_stopped = true }) s.executor
      else outcome s [] returns

  unfoldable pub rethrown : Option Exn → Outcome Exn → Outcome Exn
  rethrown none o = o
  rethrown (some x) o = record o { answer = rethrows x }

  -- What comes after the wait for a signal.
  unfoldable pub finish : ServerImpl Exn → Option (GeneralExecutor Exn) → Outcome Exn
  unfolding rethrown
  finish s none = outcome s [] faults
  finish s (some e) = rethrown (last_exception e) (stop s)

  -- The wait ends with a signal, or with an exception in a thread of the executor.
  unfoldable pub run_until_signal : ServerImpl Exn → Outcome Exn
  unfolding finish
  run_until_signal s = finish s s.executor
