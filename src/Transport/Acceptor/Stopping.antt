-- ===== src/Transport/Acceptor/Stopping.antt =====
-- acceptor.h: what a stop of an acceptor closes.
use cpp_msgpack_rpc.Common.{
  ℕ, ◌≡◌, refl, ◌∙◌, inl, inr, Bool, true, false, Bool-cases, none, List, [], ◌∷◌, ◌++◌, map, ◌==◌,
  if◌then◌else◌, arith, Result, ok, err,
}
use cpp_msgpack_rpc.Status.{Status}
use cpp_msgpack_rpc.Transport.StateMachine.{
  State, init, starting, stopped, processing, handle_start_request, handle_stop_requested,
  is_processing,
}
use cpp_msgpack_rpc.Transport.Acceptor.{
  Acceptor, Effect, Step, mem, append, remove, start, start_if, stop, async_accept_next, Accepted,
  operation_aborted, fails, accepts, accept_more, on_accept, stop_effects, stop_if, stop_in_thread,
  forget, async_accept, cancel, close, close_connection, on_connection, remove_file, post_accept,
  post_stop,
}

-- What may happen to an acceptor: its operations, the parts that were posted, the end of an accept
-- and the destruction of a connection. Each with whether the executor exists.
pub data Event : Type 0 where
  starts stops stop_runs : Event
  accept_runs : Bool → Event
  accept_ends : Bool → Accepted → Event
  destroyed : ℕ → Event

unfoldable pub step : Acceptor → Event → Step
step a starts = start a
step a stops = stop a
step a stop_runs = stop_in_thread a
step a (accept_runs alive) = async_accept_next alive a []
step a (accept_ends alive r) = on_accept alive a r
step a (destroyed i) = record { acceptor = forget a i; effects = []; thrown = none }

unfoldable pub run : Acceptor → List Event → Acceptor × List Effect
run a [] = (a, [])
run a (e ∷ es) = let (b, later) = run (step a e).acceptor es in (b, (step a e).effects ++ later)

-- Whether a connection is open after some events: accepted, and not destroyed since.
abbrev pub is_open : ℕ → Bool → List Event → Bool
is_open i b [] = b
is_open i b (accept_ends alive (accepts j) ∷ es) = is_open i (if j == i then true else b) es
is_open i b (destroyed j ∷ es) = is_open i (if j == i then false else b) es
is_open i b (_ ∷ es) = is_open i b es

-- The calls of `async_close` for a connection.
abbrev pub closes : ℕ → List Effect → Bool
closes i [] = false
closes i (close_connection j ∷ es) = let rest = closes i es in if j == i then true else rest
closes i (_ ∷ es) = closes i es

mem-append : (i j : ℕ) (cs : List ℕ) → mem i (append cs j) ≡ (if j == i then true else mem i cs)
unfolding append
mem-append i j cs = elim (Bool-cases (mem j cs)) [
  | inl known ↦ elim (Bool-cases (j == i)) [ inl same ↦ ground arith | inr other ↦ ground arith ]
  | inr fresh ↦ ground arith
]

mem-remove : (i j : ℕ) (cs : List ℕ) → mem i (remove j cs) ≡ (if j == i then false else mem i cs)
unfolding remove
mem-remove i j [] = ground arith
mem-remove i j (c ∷ cs) = ground (arith, mem-remove i j cs)

connection_list-start_if :
    (a : Acceptor) (r : Result Status State)
    → (start_if a r).acceptor.connection_list ≡ a.connection_list
unfolding start_if
connection_list-start_if a (ok state) = refl
connection_list-start_if a (err s) = refl

connection_list-stop_if :
    (a : Acceptor) (r : State × Bool) → (stop_if a r).acceptor.connection_list ≡ a.connection_list
unfolding stop_if
connection_list-stop_if a (state, true) = refl
connection_list-stop_if a (state, false) = refl

acceptor-async_accept_next :
    (alive : Bool) (a : Acceptor) (before : List Effect)
    → (async_accept_next alive a before).acceptor ≡ a
unfolding async_accept_next
acceptor-async_accept_next true a before = refl
acceptor-async_accept_next false a before = refl

acceptor-accept_more :
    (alive : Bool) (a : Acceptor) (before : List Effect) → (accept_more alive a before).acceptor ≡ a
unfolding accept_more
acceptor-accept_more alive a before = elim (Bool-cases (is_processing a.state)) [
  | inl goes_on ↦ rw (goes_on, accept_more) (acceptor-async_accept_next alive a before)
  | inr ends ↦ rw (ends, accept_more) refl
]

list_after :
    (a : Acceptor) (e : Event) (i : ℕ) (es : List Event)
    → is_open i (mem i (step a e).acceptor.connection_list) es
      ≡ is_open i (mem i a.connection_list) (e ∷ es)
unfolding step start stop stop_in_thread async_accept_next on_accept accept_more forget stop_if
    start_if
list_after a starts i es = rw (connection_list-start_if a (handle_start_request a.state)) refl
list_after a stops i es = refl
list_after a stop_runs i es = rw (connection_list-stop_if a (handle_stop_requested a.state)) refl
list_after a (accept_runs true) i es = refl
list_after a (accept_runs false) i es = refl
list_after a (accept_ends alive operation_aborted) i es = refl
list_after a (accept_ends alive (fails text)) i es = refl
list_after a (accept_ends alive (accepts j)) i es =
    let b : Acceptor = record a { connection_list = append a.connection_list j } in
    rw (acceptor-accept_more alive b (on_connection j ∷ []), mem-append i j a.connection_list) refl
list_after a (destroyed j) i es = rw (mem-remove i j a.connection_list) refl

connection_list-run :
    (a : Acceptor) (es : List Event) (i : ℕ)
    → mem i (run a es).0.connection_list ≡ is_open i (mem i a.connection_list) es
unfolding run
connection_list-run a [] i = refl
connection_list-run a (e ∷ es) i =
    connection_list-run (step a e).acceptor es i ∙ list_after a e i es

closes-append :
    (i : ℕ) (es fs : List Effect)
    → closes i (es ++ fs) ≡ (if closes i es then true else closes i fs)
closes-append i [] fs = refl
closes-append i (close_connection j ∷ es) fs = ground (arith, closes-append i es fs)
closes-append i (post_accept ∷ es) fs = closes-append i es fs
closes-append i (post_stop ∷ es) fs = closes-append i es fs
closes-append i (async_accept ∷ es) fs = closes-append i es fs
closes-append i (cancel ∷ es) fs = closes-append i es fs
closes-append i (close ∷ es) fs = closes-append i es fs
closes-append i (on_connection j ∷ es) fs = closes-append i es fs
closes-append i (remove_file ∷ es) fs = closes-append i es fs

closes-map : (i : ℕ) (cs : List ℕ) → closes i (map close_connection cs) ≡ mem i cs
closes-map i [] = refl
closes-map i (c ∷ cs) = ground (arith, closes-map i cs)

abbrev pub is_stopped : State → Bool
is_stopped stopped = true
is_stopped _ = false

closes_file : (i : ℕ) (b : Bool) → closes i (if b then remove_file ∷ [] else []) ≡ false
closes_file i true = refl
closes_file i false = refl

closes-first_stop :
    (a : Acceptor) (r : State × Bool) (i : ℕ)
    → r.1 ≡ true
    → closes i (stop_if a r).effects ≡ mem i a.connection_list
unfolding stop_if stop_effects
closes-first_stop a (state, false) i e = cc
closes-first_stop a (state, true) i e =
    rw
      (
        closes-append i (map close_connection a.connection_list)
            (if a.is_unix then remove_file ∷ [] else []),
        closes_file i a.is_unix,
        closes-map i a.connection_list,
      )
      (ground arith)

closes-stop_in_thread :
    (a : Acceptor) (i : ℕ)
    → is_stopped a.state ≡ false
    → closes i (stop_in_thread a).effects ≡ mem i a.connection_list
unfolding stop_in_thread stop_if stop_effects handle_stop_requested
closes-stop_in_thread a i h =
    closes-first_stop a (handle_stop_requested a.state) i (first a.state h)
  where
    first : (t : State) → is_stopped t ≡ false → (handle_stop_requested t).1 ≡ true
    first init e = refl
    first starting e = refl
    first processing e = refl
    first stopped e = cc

-- When an acceptor that is not stopped yet is stopped, after any events, it closes just the
-- connections that are open: those that were in its list or have been accepted, and have not been
-- destroyed since.
pub stop_in_thread-run :
    (a : Acceptor) (es : List Event) (i : ℕ)
    → is_stopped (run a es).0.state ≡ false
    → closes i (stop_in_thread (run a es).0).effects ≡ is_open i (mem i a.connection_list) es
stop_in_thread-run a es i h = closes-stop_in_thread (run a es).0 i h ∙ connection_list-run a es i

stopped_after :
    (a : Acceptor) (t : State) → (stop_if a (handle_stop_requested t)).acceptor.state ≡ stopped
unfolding stop_if handle_stop_requested
stopped_after a init = refl
stopped_after a starting = refl
stopped_after a processing = refl
stopped_after a stopped = refl

state-stop_in_thread : (a : Acceptor) → (stop_in_thread a).acceptor.state ≡ stopped
unfolding stop_in_thread stop_if handle_stop_requested
state-stop_in_thread a = stopped_after a a.state

closes-stop_again :
    (a : Acceptor) (t : State) (i : ℕ)
    → t ≡ stopped
    → closes i (stop_if a (handle_stop_requested t)).effects ≡ false
unfolding stop_if handle_stop_requested
closes-stop_again a init i h = cc
closes-stop_again a starting i h = cc
closes-stop_again a processing i h = cc
closes-stop_again a stopped i h = refl

step_stopped :
    (a : Acceptor) (e : Event) (i : ℕ)
    → a.state ≡ stopped
    → ((step a e).acceptor.state ≡ stopped) × (closes i (step a e).effects ≡ false)
unfolding step start stop stop_in_thread async_accept_next on_accept accept_more forget stop_if
    start_if handle_stop_requested handle_start_request
step_stopped a starts i h = (
  rw (h, start, handle_start_request, start_if) h,
  rw (h, start, handle_start_request, start_if) refl,
)
step_stopped a stops i h = (h, refl)
step_stopped a stop_runs i h = (state-stop_in_thread a, closes-stop_again a a.state i h)
step_stopped a (accept_runs true) i h = (h, refl)
step_stopped a (accept_runs false) i h = (h, refl)
step_stopped a (accept_ends alive operation_aborted) i h = (h, refl)
step_stopped a (accept_ends alive (fails text)) i h = (h, refl)
step_stopped a (accept_ends alive (accepts j)) i h =
    (rw (h, accept_more) refl, rw (h, accept_more) refl)
step_stopped a (destroyed j) i h = (h, refl)

closes-run_stopped :
    (a : Acceptor) (es : List Event) (i : ℕ) → a.state ≡ stopped → closes i (run a es).1 ≡ false
unfolding run
closes-run_stopped a [] i h = refl
closes-run_stopped a (e ∷ es) i h =
    let (still, nothing) = step_stopped a e i h in
    rw (closes-append i (step a e).effects (run (step a e).acceptor es).1, nothing)
      (closes-run_stopped (step a e).acceptor es i still)

-- A connection whose accept ends after the stop is handed to the callback all the same, and no
-- later event makes the acceptor close it, not even another stop.
pub accept_after_stop :
    (a : Acceptor) (alive : Bool) (i : ℕ) (es : List Event)
    → ((step (stop_in_thread a).acceptor (accept_ends alive (accepts i))).effects
        ≡ on_connection i ∷ [])
      × (closes i (run (stop_in_thread a).acceptor (accept_ends alive (accepts i) ∷ es)).1 ≡ false)
unfolding step on_accept accept_more
accept_after_stop a alive i es = (
  rw (state-stop_in_thread a, accept_more) refl,
  closes-run_stopped (stop_in_thread a).acceptor (accept_ends alive (accepts i) ∷ es) i
      (state-stop_in_thread a),
)
