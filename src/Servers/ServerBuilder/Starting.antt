-- ===== src/Servers/ServerBuilder/Starting.antt =====
-- server_builder_impl.h, server_impl.h: the start of a server that has been built.
use cpp_msgpack_rpc.Common.{
  ℕ, ◌≡◌, refl, inl, inr, Bool, true, false, Bool-cases, Option, none, some, List, [], ◌∷◌, ◌++◌,
  map,
}
use cpp_msgpack_rpc.Status.{status, precondition_not_met}
use cpp_msgpack_rpc.Executors.GeneralExecutor
use cpp_msgpack_rpc.Executors.GeneralExecutor.{
  GeneralExecutor, StartError, already_started, is_running,
}
use cpp_msgpack_rpc.Executors.GeneralExecutor.Lifecycle.{try_stop-is_running, try_stop_waits}
use cpp_msgpack_rpc.Servers.ServerBuilder.{ended, destroyed}
use cpp_msgpack_rpc.Servers.ServerImpl
use cpp_msgpack_rpc.Servers.ServerImpl.{
  ServerImpl, Outcome, Answer, Effect, starts_acceptor, starts_executor, stops_acceptor,
  stops_executor, returns, start_fails, rethrows,
}

-- A server that has been started: what its start did.
pub record IsServing {Exn : Type 0} (acceptors : List ℕ) (o : Outcome Exn) : Type 0 where
  pub started_all : o.effects ≡ map starts_acceptor acceptors ++ starts_executor ∷ []
  pub is_started : o.server.is_started ≡ true
  pub started_executor :
      (e : GeneralExecutor Exn) × (o.server.executor ≡ some e) × (e.is_started ≡ true)

-- The exception of an executor that has been started before.
abbrev pub twice : StartError
twice = already_started (status precondition_not_met "An executor must not be run multiple times.")

module _ {Exn : Type 0} where
  started-IsServing :
      (can_spawn : Bool) (s : ServerImpl Exn) (executor : Option (GeneralExecutor Exn))
      → s.is_started ≡ true
      → (ServerImpl.start_parts can_spawn s executor).answer ≡ returns
      → IsServing s.acceptors (ServerImpl.start_parts can_spawn s executor)
  unfolding ServerImpl.start_parts ServerImpl.started GeneralExecutor.start
      GeneralExecutor.on_exception
  started-IsServing can_spawn s none h e = cc
  started-IsServing true s (some x) h e = elim (Bool-cases x.is_started) [
    | inl again ↦ let wrong : start_fails _ ≡ returns = rw again at e in cc
    | inr first ↦
        rw first (record { started_all = refl; is_started = h; started_executor = (_, refl, refl) })
  ]
  started-IsServing false s (some x) h e = elim (Bool-cases x.is_started) [
    | inl again ↦ let wrong : start_fails _ ≡ returns = rw again at e in cc
    | inr first ↦ let wrong : start_fails _ ≡ returns = rw first at e in cc
  ]

  pub start-IsServing :
      (can_spawn : Bool) (s : ServerImpl Exn)
      → s.is_started ≡ false
      → (ServerImpl.start can_spawn s).answer ≡ returns
      → IsServing s.acceptors (ServerImpl.start can_spawn s)
  unfolding ServerImpl.start
  start-IsServing can_spawn s h e =
      let t = record s { is_started = true } in
      let before : (ServerImpl.start_parts can_spawn t s.executor).answer ≡ returns = rw h at e in
      rw h (started-IsServing can_spawn t s.executor refl before)

  -- The start of a server whose executor runs for another one, and the destructor after it.
  pub start_again :
      (ends can_spawn : Bool) (s : ServerImpl Exn) (e : GeneralExecutor Exn)
      → s.is_started ≡ false
      → s.is_stopped ≡ false
      → s.executor ≡ some e
      → e.is_started ≡ true
      → let (o, x, returned) =
          ended ends (ServerImpl.start can_spawn s).answer (ServerImpl.start can_spawn s) in
        (o.effects
          ≡ (map starts_acceptor s.acceptors ++ starts_executor ∷ [])
            ++ (map stops_acceptor s.acceptors ++ stops_executor ∷ []))
        × (o.answer ≡ start_fails twice)
        × ((y : GeneralExecutor Exn) × (x ≡ some y) × (is_running y ≡ false))
        × (returned ≡ false → ends ≡ false)
  unfolding ServerImpl.start ServerImpl.start_parts ServerImpl.started GeneralExecutor.start
      GeneralExecutor.on_exception ended destroyed ServerImpl.stop ServerImpl.stop_parts
  start_again ends can_spawn s e h k there running =
      rw (h, k, there, running)
        (refl, refl, (_, refl, try_stop-is_running ends _), try_stop_waits ends _)

  pub ended-returns :
      (ends : Bool) (x : Answer Exn) (o : Outcome Exn)
      → o.answer ≡ x
      → (ended ends x o).0.answer ≡ returns
      → ((ended ends x o).0 ≡ o) × ((ended ends x o).1 ≡ o.server.executor)
  unfolding ended destroyed
  ended-returns ends returns o e h = (refl, refl)
  ended-returns ends ServerImpl.faults o e h = (refl, refl)
  ended-returns ends (ServerImpl.throws s) o e h = cc
  ended-returns ends (start_fails y) o e h = cc
  ended-returns ends (rethrows y) o e h = cc
