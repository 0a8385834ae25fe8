-- ===== src/Clients/ClientConnector.antt =====
-- client_connector.h: keeps a client connected to one of its servers until it is stopped. A
-- connection is known by a number; an operation answers with what it asks for, in order.
pub mod Stopping
pub mod Reconnecting
use cpp_msgpack_rpc.Common.{
  ℕ, Bool, true, false, Option, none, some, List, [], ◌∷◌, ◌++◌, if◌then◌else◌,
}
use cpp_msgpack_rpc.Clients.ReconnectionTimer.{ReconnectionTimer, compute_waiting_time, reset}

pub record ClientConnector : Type 0 where
  pub connection : Option ℕ
  pub is_stopped : Bool
  pub retry_timer : ReconnectionTimer

pub data Effect : Type 0 where
  -- `transport::async_connect` to the server's URIs, which may call back or let an exception escape,
  -- at once or later, and the timer that leads to it.
  try_connect : Effect
  sleep : ℕ → Effect
  cancel_timer : Effect
  start_connection close_connection : ℕ → Effect
  -- The callbacks.
  on_connection_callback on_closed_callback : Effect

abbrev pub async_connect : List Effect
async_connect = try_connect ∷ []

unfoldable pub start : ClientConnector → ClientConnector × List Effect
start c = (c, async_connect)

abbrev pub close_effects : Option ℕ → List Effect
close_effects none = []
close_effects (some connection) = close_connection connection ∷ []

pub stop : ClientConnector → ClientConnector × List Effect
stop c = if c.is_stopped then (c, []) else (
  record c { connection = none; is_stopped = true },
  close_effects c.connection ++ cancel_timer ∷ [],
)

pub on_connection : ClientConnector → ℕ → ClientConnector × List Effect
on_connection c connection = if c.is_stopped then (c, []) else (
  record c { connection = some connection; retry_timer = reset c.retry_timer },
  start_connection connection ∷ on_connection_callback ∷ [],
)

async_wait :
    ClientConnector → Option (ℕ × ReconnectionTimer) → Option (ClientConnector × List Effect)
async_wait c none = none
async_wait c (some (wait_time, timer)) =
    some (record c { retry_timer = timer }, sleep wait_time ∷ [])

-- With the jitter of the timer; `none` is an overflow in it.
pub on_connection_failure : ClientConnector → ℕ → Option (ClientConnector × List Effect)
unfolding async_wait
on_connection_failure c jitter =
    if c.is_stopped then some (c, []) else async_wait c (compute_waiting_time c.retry_timer jitter)

pub on_connection_closed : ClientConnector → ClientConnector × List Effect
on_connection_closed c =
    if c.is_stopped
    then (c, [])
    else (record c { connection = none }, on_closed_callback ∷ async_connect)

-- What may happen: the two operations, the three ends of an attempt to connect (it calls back with a
-- connection or a failure, or an exception escapes from it), the end of a sleep, and a report that a
-- connection is closed.
pub data Event : Type 0 where
  starts stops sleep_ends closes escapes : Event
  connects fails : ℕ → Event

pub step : ClientConnector → Event → Option (ClientConnector × List Effect)
step c starts = some (start c)
step c stops = some (stop c)
step c sleep_ends = some (c, async_connect)
step c closes = some (on_connection_closed c)
step c escapes = some (c, [])
step c (connects connection) = some (on_connection c connection)
step c (fails jitter) = on_connection_failure c jitter

pub run : ClientConnector → List Event → Option (ClientConnector × List Effect)
run c [] = some (c, [])
run c (e ∷ es) = elim (step c e) [
  | none ↦ none
  | some (d, now) ↦ elim (run d es) [ none ↦ none | some (f, later) ↦ some (f, now ++ later) ]
]
