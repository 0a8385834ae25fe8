-- ===== src/Servers/ServerImpl/Lifecycle.antt =====
-- server_impl.h: the operations of a server in any order.
use cpp_msgpack_rpc.Common.{
  ℕ, ◌≡◌, refl, Bool, true, false, Option, none, some, List, [], ◌∷◌, ◌++◌, map, if◌then◌else◌,
  Result, ok, err, arith, append-nil, ◌∙◌,
}
use cpp_msgpack_rpc.Executors.GeneralExecutor
use cpp_msgpack_rpc.Executors.GeneralExecutor.{GeneralExecutor, StartError, last_exception}
use cpp_msgpack_rpc.Servers.ServerImpl.{
  ServerImpl, Effect, starts_acceptor, stops_acceptor, starts_executor, stops_executor, rethrows,
  faults, Outcome, new_server, started, start_parts, start, stop_parts, stop, rethrown, finish,
  run_until_signal,
}

pub data Operation : Type 0 where
  starts : Bool → Operation
  stops : Operation

-- What the documentation of the operations promises: all parts are started at the first start and
-- stopped at the first stop after it.
abbrev pub start_effects : List ℕ → List Effect
start_effects acceptors = map starts_acceptor acceptors ++ starts_executor ∷ []

abbrev pub stop_effects : List ℕ → List Effect
stop_effects acceptors = map stops_acceptor acceptors ++ stops_executor ∷ []

pub effects_running : List ℕ → List Operation → List Effect
effects_running acceptors [] = []
effects_running acceptors (starts can_spawn ∷ os) = effects_running acceptors os
effects_running acceptors (stops ∷ os) = stop_effects acceptors

pub effects_new : List ℕ → List Operation → List Effect
effects_new acceptors [] = []
effects_new acceptors (starts can_spawn ∷ os) =
    start_effects acceptors ++ effects_running acceptors os
effects_new acceptors (stops ∷ os) = effects_new acceptors os

module _ {Exn : Type 0} where
  pub perform : ServerImpl Exn → Operation → Outcome Exn
  perform s (starts can_spawn) = start can_spawn s
  perform s stops = stop s

  -- The calls that a server makes while the operations are performed, and the server then.
  pub perform_all : ServerImpl Exn → List Operation → ServerImpl Exn × List Effect
  perform_all s [] = (s, [])
  perform_all s (o ∷ os) =
      let (t, later) = perform_all (perform s o).server os in (t, (perform s o).effects ++ later)

  start_again :
      (s : ServerImpl Exn) (can_spawn : Bool)
      → s.is_started ≡ true
      → ((perform s (starts can_spawn)).server ≡ s) × ((perform s (starts can_spawn)).effects ≡ [])
  unfolding perform start
  start_again s can_spawn b = (rw (b, start) refl, rw (b, start) refl)

  stop_idle :
      (s : ServerImpl Exn)
      → (if s.is_started then s.is_stopped else true) ≡ true
      → ((perform s stops).server ≡ s) × ((perform s stops).effects ≡ [])
  unfolding perform stop
  stop_idle s b = (ground arith, ground arith)

  perform-stopped :
      (s : ServerImpl Exn) (os : List Operation)
      → s.is_started ≡ true
      → s.is_stopped ≡ true
      → (perform_all s os).1 ≡ []
  unfolding perform_all
  perform-stopped s [] b o = refl
  perform-stopped s (starts can_spawn ∷ os) b o =
      let (same, none_made) = start_again s can_spawn b in
      rw (none_made, same) (perform-stopped s os b o)
  perform-stopped s (stops ∷ os) b o =
      let (same, none_made) = stop_idle s (rw (b, if◌then◌else◌) o) in
      rw (none_made, same) (perform-stopped s os b o)

  stop_running :
      (s : ServerImpl Exn) (e : GeneralExecutor Exn)
      → s.executor ≡ some e
      → s.is_started ≡ true
      → s.is_stopped ≡ false
      → ((perform s stops).effects ≡ stop_effects s.acceptors)
        × ((perform s stops).server.is_started ≡ true)
        × ((perform s stops).server.is_stopped ≡ true)
  unfolding perform stop stop_parts
  stop_running s e x b o =
      (rw (b, stop, o, x) refl, rw (b, stop, o, x) refl, rw (b, stop, o, x) refl)

  perform-running :
      (s : ServerImpl Exn) (e : GeneralExecutor Exn) (os : List Operation)
      → s.executor ≡ some e
      → s.is_started ≡ true
      → s.is_stopped ≡ false
      → (perform_all s os).1 ≡ effects_running s.acceptors os
  unfolding perform_all effects_running
  perform-running s e [] x b o = refl
  perform-running s e (starts can_spawn ∷ os) x b o =
      let (same, none_made) = start_again s can_spawn b in
      rw (none_made, same) (perform-running s e os x b o)
  perform-running s e (stops ∷ os) x b o =
      let (made, begun, over) = stop_running s e x b o in
      rw (made, perform-stopped (perform s stops).server os begun over) (append-nil _)

  -- What a first start leaves, for the acceptors that were started.
  abbrev IsStarted : ServerImpl Exn → Outcome Exn → Type 0
  IsStarted s o =
      (f : GeneralExecutor Exn) × (o.server.executor ≡ some f)
      × (o.effects ≡ start_effects s.acceptors)
      × (o.server.is_started ≡ true)
      × (o.server.is_stopped ≡ s.is_stopped)
      × (o.server.acceptors ≡ s.acceptors)

  started-IsStarted :
      (s : ServerImpl Exn) (r : GeneralExecutor Exn × Result StartError (Unit {0}))
      → s.is_started ≡ true
      → IsStarted s (started s (map starts_acceptor s.acceptors) r)
  unfolding started
  started-IsStarted s (f, ok u) b = (f, refl, refl, b, refl, refl)
  started-IsStarted s (f, err x) b = (f, refl, refl, b, refl, refl)

  start_new :
      (s : ServerImpl Exn) (e : GeneralExecutor Exn) (can_spawn : Bool)
      → s.executor ≡ some e
      → s.is_started ≡ false
      → IsStarted s (perform s (starts can_spawn))
  unfolding perform start start_parts
  start_new s e can_spawn x b =
      rw (b, start, x, start_parts)
        (started-IsStarted (record s { is_started = true })
          (GeneralExecutor.start can_spawn (GeneralExecutor.on_exception e)) refl)

  perform-new :
      (s : ServerImpl Exn) (e : GeneralExecutor Exn) (os : List Operation)
      → s.executor ≡ some e
      → s.is_started ≡ false
      → s.is_stopped ≡ false
      → (perform_all s os).1 ≡ effects_new s.acceptors os
  unfolding perform_all effects_new
  perform-new s e [] x b o = refl
  perform-new s e (starts can_spawn ∷ os) x b o =
      let (f, has, made, begun, still, kept) = start_new s e can_spawn x b in
      rw
        (
          made,
          perform-running (perform s (starts can_spawn)).server f os has begun (still ∙ o),
          kept,
        )
        refl
  perform-new s e (stops ∷ os) x b o =
      let (same, none_made) = stop_idle s (rw b refl) in
      rw (none_made, same) (perform-new s e os x b o)

  -- Whatever the order in which a server is started and stopped, its acceptors and then its executor
  -- are started at the first start, and stopped at the first stop after that; all other calls, a stop
  -- before the start and a start after the stop among them, start and stop nothing.
  pub perform_all-new_server :
      (acceptors : List ℕ) (e : GeneralExecutor Exn) (os : List Operation)
      → (perform_all (new_server acceptors e) os).1 ≡ effects_new acceptors os
  perform_all-new_server acceptors e os = perform-new (new_server acceptors e) e os refl refl refl

  -- For a server that runs, `run_until_signal` follows a null pointer when the server has been
  -- stopped before it is called, although `stop` is a public operation.
  pub run_until_signal-stop :
      (s : ServerImpl Exn) (e : GeneralExecutor Exn)
      → s.executor ≡ some e
      → s.is_started ≡ true
      → s.is_stopped ≡ false
      → (run_until_signal (stop s).server).answer ≡ faults
  unfolding run_until_signal stop stop_parts finish
  run_until_signal-stop s e x b o = rw (b, stop, o, x, finish) refl

  rethrown_parts :
      (x : Option Exn) (o : Outcome Exn)
      → ((rethrown x o).server ≡ o.server)
        × ((rethrown x o).effects ≡ o.effects)
        × ((exn : Exn) → x ≡ some exn → (rethrown x o).answer ≡ rethrows exn)
  unfolding rethrown
  rethrown_parts none o = (refl, refl, λ exn e. cc)
  rethrown_parts (some x) o = (refl, refl, λ exn e. cc)

  finish_parts :
      (s : ServerImpl Exn) (e : GeneralExecutor Exn) (o : Option (GeneralExecutor Exn))
      → o ≡ some e
      → ((finish s o).server ≡ (stop s).server)
        × ((finish s o).effects ≡ (stop s).effects)
        × ((exn : Exn) → e.exception_in_thread ≡ some exn → (finish s o).answer ≡ rethrows exn)
  unfolding finish
  finish_parts s e none h = cc
  finish_parts s e (some f) h =
      let same : f ≡ e = cc in rw⁻¹ same (rethrown_parts (last_exception f) (stop s))

  -- While a server has its executor, `run_until_signal` stops the server as `stop` does, and ends
  -- with the exception of a thread of the executor if there is one.
  pub run_until_signal-running :
      (s : ServerImpl Exn) (e : GeneralExecutor Exn)
      → s.executor ≡ some e
      → ((run_until_signal s).server ≡ (stop s).server)
        × ((run_until_signal s).effects ≡ (stop s).effects)
        × ((exn : Exn)
            → e.exception_in_thread ≡ some exn
            → (run_until_signal s).answer ≡ rethrows exn)
  unfolding run_until_signal
  run_until_signal-running s e x = finish_parts s e s.executor x
