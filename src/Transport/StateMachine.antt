-- ===== src/Transport/StateMachine.antt =====
-- background_task_state_machine.h: the state of a connection or an acceptor.
use cpp_msgpack_rpc.Common.{Bool, true, false, Result, ok, err}
use cpp_msgpack_rpc.Status.{Status, status, precondition_not_met}

pub data State : Type 0 where
  init starting processing stopped : State

-- A compare and exchange from `init`.
unfoldable pub handle_start_request : State → Result Status State
handle_start_request init = ok starting
handle_start_request _ = err (status precondition_not_met "Already started.")

unfoldable pub handle_processing_started : State → State
handle_processing_started _ = processing

-- The new state, and whether this request is the first to stop.
unfoldable pub handle_stop_requested : State → State × Bool
handle_stop_requested stopped = (stopped, false)
handle_stop_requested _ = (stopped, true)

unfoldable pub handle_processing_stopped : State → State
handle_processing_stopped _ = stopped

abbrev pub is_processing : State → Bool
is_processing processing = true
is_processing _ = false
