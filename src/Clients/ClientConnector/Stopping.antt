-- ===== src/Clients/ClientConnector/Stopping.antt =====
-- client_connector.h: a connector after its stop, and two reports of one close.
use cpp_msgpack_rpc.Common.{
  ℕ, ◌≡◌, refl, ap, ◌∙◌, true, false, none, some, List, [], ◌∷◌, ◌++◌, arith,
}
use cpp_msgpack_rpc.Clients.ReconnectionTimer.{reset}
use cpp_msgpack_rpc.Clients.ClientConnector.{
  ClientConnector, Effect, close_effects, try_connect, start_connection, close_connection,
  cancel_timer, on_connection_callback, on_closed_callback, Event, starts, stops, sleep_ends,
  closes, escapes, connects, fails, start, stop, on_connection, on_connection_failure,
  on_connection_closed, step, run,
}

-- One attempt to connect for each start and each end of a sleep.
abbrev pub tries : List Event → List Effect
tries [] = []
tries (starts ∷ es) = try_connect ∷ tries es
tries (sleep_ends ∷ es) = try_connect ∷ tries es
tries (_ ∷ es) = tries es

abbrev tries_now : Event → List Effect
tries_now starts = try_connect ∷ []
tries_now sleep_ends = try_connect ∷ []
tries_now _ = []

step_stopped :
    (c : ClientConnector) (e : Event) → c.is_stopped ≡ true → step c e ≡ some (c, tries_now e)
unfolding step start stop on_connection on_connection_failure on_connection_closed
step_stopped c starts h = refl
step_stopped c sleep_ends h = refl
step_stopped c escapes h = refl
step_stopped c stops h = ground arith
step_stopped c closes h = ground arith
step_stopped c (connects n) h = ground arith
step_stopped c (fails j) h = ground arith

tries-cons : (e : Event) (es : List Event) → tries_now e ++ tries es ≡ tries (e ∷ es)
tries-cons starts es = refl
tries-cons sleep_ends es = refl
tries-cons _ es = refl

run_stopped :
    (c : ClientConnector) (es : List Event) → c.is_stopped ≡ true → run c es ≡ some (c, tries es)
unfolding run
run_stopped c [] h = refl
run_stopped c (e ∷ es) h = rw (step_stopped c e h, run, run_stopped c es h, tries-cons e es)

stop_running :
    (c : ClientConnector)
    → c.is_stopped ≡ false
    → stop c ≡ (
      record c { connection = none; is_stopped = true },
      close_effects c.connection ++ cancel_timer ∷ [],
    )
unfolding stop
stop_running c h = ground arith

-- After the stop of a connector that was not stopped nothing changes it any more: it holds no
-- connection, starts none, calls no callback and sets no timer. Only a sleep that ends all the
-- same, or another start, leads to an attempt to connect, whose outcome is dropped.
pub run-stop :
    (c : ClientConnector) (es : List Event)
    → c.is_stopped ≡ false
    → run (stop c).0 es ≡ some (record c { connection = none; is_stopped = true }, tries es)
run-stop c es h =
    ap (λ (p : ClientConnector × List Effect). run p.0 es) (stop_running c h)
    ∙ run_stopped (record c { connection = none; is_stopped = true }) es refl

-- For a connector that is not stopped, two reports that one connection is closed lead to two
-- attempts to connect; when both succeed, the connector starts two connections, and a stop closes
-- only the second one.
pub closes_twice :
    (c : ClientConnector) (first second : ℕ)
    → c.is_stopped ≡ false
    → run c (closes ∷ closes ∷ connects first ∷ connects second ∷ stops ∷ [])
      ≡ some (
        record c {
          connection = none;
          is_stopped = true;
          retry_timer = reset (reset c.retry_timer);
        },
        on_closed_callback
            ∷ try_connect
            ∷ on_closed_callback
            ∷ try_connect
            ∷ start_connection first
            ∷ on_connection_callback
            ∷ start_connection second
            ∷ on_connection_callback
            ∷ close_connection second
            ∷ cancel_timer
            ∷ [],
      )
unfolding run step on_connection_closed on_connection stop
closes_twice c first second h = ground arith
