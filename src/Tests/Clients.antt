-- ===== src/Tests/Clients.antt =====
-- The client's parts at concrete values.
use cpp_msgpack_rpc.Common.{ℕ, ◌≡◌, refl, ◌≢◌, true, false, none, some, List, [], ◌∷◌, arith, arith}
use cpp_msgpack_rpc.Status.{status, success, server_error}
use cpp_msgpack_rpc.Messages.Parsed.{ParsedResponse, create_result}
use cpp_msgpack_rpc.Executors.GeneralExecutor.{new_executor}
use cpp_msgpack_rpc.Clients.RequestIdGenerator.{generate, after_calls, generate-distinct}
use cpp_msgpack_rpc.Clients.CallFuture.{new_future, get_result}
use cpp_msgpack_rpc.Clients.CallFuture.Settings.{
  Setting, apply_settings, first_setting, get_result-apply_settings, sets_result, sets_error,
}
use cpp_msgpack_rpc.Clients.CallList.{CallList}
use cpp_msgpack_rpc.Clients.CallList.Resolution
use cpp_msgpack_rpc.Clients.CallList.Resolution.{
  IsValid, creates, responds, expires, outcome, step-IsValid, futures-run,
}
use cpp_msgpack_rpc.Clients.MessageSender.{new_sender}
use cpp_msgpack_rpc.Clients.MessageSender.Delivery
use cpp_msgpack_rpc.Clients.MessageSender.Delivery.{connects, disconnects}
use cpp_msgpack_rpc.Clients.MessageSender.Race
use cpp_msgpack_rpc.Clients.MessageSender.Race.{
  Turn, Threads, both_enter, schedule, send_next_loses, user_sends, user_steps, transport_steps,
  enters, finished,
}
use cpp_msgpack_rpc.Clients.ReconnectionTimer.{
  ReconnectionTimer, reset, waits, backoff, waits-reset,
}
use cpp_msgpack_rpc.Clients.ClientConnector.{
  ClientConnector, start, stop, try_connect, sleep, start_connection, close_connection,
  cancel_timer, on_connection_callback, on_closed_callback,
}
use cpp_msgpack_rpc.Clients.ClientConnector.Reconnecting.{
  with_effects, IsTrying, start-IsTrying, here, next,
}
use cpp_msgpack_rpc.Clients.ClientConnector
use cpp_msgpack_rpc.Clients.ClientConnector.Reconnecting
use cpp_msgpack_rpc.Clients.ClientConnector.Stopping.{run-stop, closes_twice, tries}
use cpp_msgpack_rpc.Clients.ClientImpl.{ClientImpl, stopped_error}
use cpp_msgpack_rpc.Clients.ClientImpl
use cpp_msgpack_rpc.Clients.ClientImpl.Lifecycle.{
  IsWhole, whole, starts, stops, notifies, perform_all, perform_all-IsWhole, stop_refuses,
}

generate-distinct_example :
    (generate (after_calls 4294967295 0)).0 ≢ (generate (after_calls 4294967295 5)).0
generate-distinct_example =
    generate-distinct 4294967295 0 5 (omega arith) (omega arith) (omega arith)

abbrev settings : List (Setting ℕ)
settings =
    sets_error (status success "")
    ∷ sets_error (status server_error "no")
    ∷ sets_result (create_result 5)
    ∷ []

get_result-apply_settings_example :
    get_result (apply_settings (new_future 100) settings) ≡ first_setting settings
get_result-apply_settings_example = get_result-apply_settings 100 settings

abbrev timer : ReconnectionTimer
timer = record {
  initial_waiting_time = 1000;
  max_waiting_time = 3000;
  next_wait_time_without_jitter = 3000;
}

waits-reset_example :
    waits (reset timer) (5 ∷ 6 ∷ 7 ∷ []) ≡ some (backoff 1000 3000 0 (5 ∷ 6 ∷ 7 ∷ []))
waits-reset_example =
    waits-reset timer (5 ∷ 6 ∷ 7 ∷ []) (omega arith) (omega arith)
      (omega arith, (omega arith, (omega arith, _)))

abbrev idle : ClientConnector
idle = record { connection = none; is_stopped = false; retry_timer = timer }

run-stop_example :
    ClientConnector.run (stop idle).0 (ClientConnector.connects 7 ∷ ClientConnector.stops ∷ [])
    ≡ some (
      record idle { connection = none; is_stopped = true },
      tries (ClientConnector.connects 7 ∷ ClientConnector.stops ∷ []),
    )
run-stop_example = run-stop idle (ClientConnector.connects 7 ∷ ClientConnector.stops ∷ []) refl

closes_twice_example :
    ClientConnector.run idle (
      ClientConnector.closes
      ∷ ClientConnector.closes
      ∷ ClientConnector.connects 1
      ∷ ClientConnector.connects 2
      ∷ ClientConnector.stops
      ∷ [])
    ≡ some (
      record idle { connection = none; is_stopped = true; retry_timer = reset (reset timer) },
      on_closed_callback
          ∷ try_connect
          ∷ on_closed_callback
          ∷ try_connect
          ∷ start_connection 1
          ∷ on_connection_callback
          ∷ start_connection 2
          ∷ on_connection_callback
          ∷ close_connection 2
          ∷ cancel_timer
          ∷ [],
    )
closes_twice_example = closes_twice idle 1 2 refl

start-IsTrying_example : IsTrying (with_effects 0 0 false (ClientConnector.on_connection idle 5))
unfolding start
start-IsTrying_example =
    start-IsTrying idle (with_effects 0 0 false (ClientConnector.on_connection idle 5))
      (next here (Reconnecting.connects 0 5 refl))

send_next_loses_example :
    (ts : List (Turn ℕ)) × (end : Threads ℕ) × (schedule
        (both_enter ((5, none) ∷ (6, none) ∷ []))
        ts
      ≡ some end)
    × (end.shared.written ≡ 5 ∷ 5 ∷ [])
    × (end.shared.queue ≡ [])
send_next_loses_example = send_next_loses 5 6 [] none none

-- The first message is being written when the connection is closed; the next connection gets it.
abbrev reconnecting : List (Turn ℕ)
reconnecting =
    transport_steps
    ∷ transport_steps
    ∷ transport_steps
    ∷ transport_steps
    ∷ transport_steps
    ∷ user_steps
    ∷ Race.disconnects
    ∷ transport_steps
    ∷ Race.connects
    ∷ user_sends 7 none
    ∷ transport_steps
    ∷ transport_steps
    ∷ transport_steps
    ∷ transport_steps
    ∷ transport_steps
    ∷ []

abbrev reconnected : Threads ℕ
reconnected = record {
  user = enters;
  transport = finished;
  shared = record {
    queue = (5, none) ∷ (6, none) ∷ (7, none) ∷ [];
    is_sending = true;
    connection = some 1;
    next_connection = 2;
    written = 5 ∷ 5 ∷ [];
    in_flight = 5 ∷ [];
  };
}

-- One call, with the ID 7, waits.
abbrev calls_now : CallList ℕ
calls_now = record {
  list = (7, 0) ∷ [];
  next_id = 8;
  call_timeout = 100;
  futures = λ k. new_future 100;
  num_futures = 1;
}

calls_now-IsValid : IsValid ℕ ℕ calls_now
calls_now-IsValid = record {
  bounded = λ id k e. ground arith;
  separate = λ id i k e f. ground arith;
}

abbrev answer : ParsedResponse ℕ
answer = record { id = 7; result = create_result 5 }

futures-run_example :
    (Resolution.run ℕ ℕ calls_now (responds answer ∷ expires 7 ∷ [])).futures 0
    ≡ outcome ℕ ℕ 7 (new_future 100) (responds answer ∷ expires 7 ∷ [])
futures-run_example =
    futures-run ℕ ℕ calls_now 7 0 (responds answer ∷ expires 7 ∷ []) calls_now-IsValid refl

step-IsValid_example : IsValid ℕ ℕ (Resolution.step ℕ ℕ calls_now (responds answer))
step-IsValid_example = step-IsValid ℕ ℕ calls_now (responds answer) calls_now-IsValid

-- A client that has not been started.
abbrev new_client : ClientImpl ℕ ℕ ℕ
new_client = record {
  executor = some (new_executor 1 1);
  connector = some idle;
  call_list = some calls_now;
  sender = some new_sender;
  is_started = false;
  is_stopped = false;
}

new_client-IsWhole : IsWhole new_client
new_client-IsWhole = whole (new_executor 1 1) idle calls_now new_sender refl refl refl refl refl

perform_all-IsWhole_example :
    IsWhole (perform_all new_client (starts true ∷ notifies (some 5) ∷ stops ∷ stops ∷ [])).0
    × ((perform_all new_client (starts true ∷ notifies (some 5) ∷ stops ∷ stops ∷ [])).1 ≡ true)
perform_all-IsWhole_example =
    perform_all-IsWhole new_client (starts true ∷ notifies (some 5) ∷ stops ∷ stops ∷ [])
      new_client-IsWhole

abbrev running_client : ClientImpl ℕ ℕ ℕ
running_client = record new_client { is_started = true }

stop_refuses_example :
    (ClientImpl.async_call (ClientImpl.stop running_client).0 50 (λ id. some id)
      ≡ ((ClientImpl.stop running_client).0, ClientImpl.throws stopped_error))
    × (ClientImpl.notify (ClientImpl.stop running_client).0 (some 5)
        ≡ ((ClientImpl.stop running_client).0, ClientImpl.throws stopped_error))
stop_refuses_example =
    stop_refuses running_client 50 (λ id. some id) (some 5)
      (whole (new_executor 1 1) idle calls_now new_sender refl refl refl refl refl) refl
