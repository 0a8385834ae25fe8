-- ===== src/Tests/Servers.antt =====
-- A server and one of its connections at concrete values.
use cpp_msgpack_rpc.Common.{ℕ, ◌≤◌, ◌≡◌, refl, true, false, some, List, [], ◌∷◌, ◌++◌, length}
use cpp_msgpack_rpc.Executors.GeneralExecutor.{GeneralExecutor, new_executor}
use cpp_msgpack_rpc.Servers.ServerConnection.{
  send_next_if_exists, take_next, push_response, clear_sending,
}
use cpp_msgpack_rpc.Servers.ServerConnection.Delivery.{
  System, Turn, responds, sends, write_ends, new_system, schedule, turn, call_once, sent, end_write,
  responses, schedule-written,
}
use cpp_msgpack_rpc.Servers.ServerImpl.{
  ServerImpl, new_server, stop, run_until_signal, rethrows, faults,
}
use cpp_msgpack_rpc.Servers.ServerImpl.Lifecycle.{
  starts, stops, perform_all, effects_new, perform_all-new_server, run_until_signal-running,
  run_until_signal-stop,
}

-- Two responses are put in the queue before a thread looks; the first write ends.
abbrev turns : List (Turn ℕ)
turns = responds 5 ∷ responds 6 ∷ sends ∷ sends ∷ write_ends ∷ []

abbrev after_turns : System ℕ
after_turns = record {
  connection = record { message_queue = 6 ∷ []; is_sending = false };
  calls = 1;
  in_flight = [];
  written = 5 ∷ [];
}

scheduled : schedule new_system turns ≡ some after_turns
unfolding schedule turn call_once sent end_write send_next_if_exists take_next push_response
    clear_sending
scheduled = refl

schedule-written_example :
    (after_turns.written ++ after_turns.connection.message_queue ≡ responses turns)
    × (length after_turns.in_flight ≤ 1)
    × (after_turns.in_flight ≡ []
        → after_turns.calls ≡ 0
        → after_turns.connection.message_queue ≡ [])
schedule-written_example = schedule-written turns after_turns scheduled

abbrev executor : GeneralExecutor ℕ
executor = record (new_executor 1 1) { exception_in_thread = some 7 }

perform_all-new_server_example :
    (perform_all
      (new_server (0 ∷ 1 ∷ []) executor)
      (stops ∷ starts true ∷ stops ∷ starts true ∷ [])).1
    ≡ effects_new (0 ∷ 1 ∷ []) (stops ∷ starts true ∷ stops ∷ starts true ∷ [])
perform_all-new_server_example =
    perform_all-new_server (0 ∷ 1 ∷ []) executor (stops ∷ starts true ∷ stops ∷ starts true ∷ [])

abbrev running : ServerImpl ℕ
running = record (new_server (0 ∷ []) executor) { is_started = true }

run_until_signal-running_example :
    ((run_until_signal running).server ≡ (stop running).server)
    × ((run_until_signal running).effects ≡ (stop running).effects)
    × ((exn : ℕ) → some 7 ≡ some exn → (run_until_signal running).answer ≡ rethrows exn)
run_until_signal-running_example = run_until_signal-running running executor refl

run_until_signal-stop_example : (run_until_signal (stop running).server).answer ≡ faults
run_until_signal-stop_example = run_until_signal-stop running executor refl refl refl
