-- ===== src/Executors/GeneralExecutor/Lifecycle.antt =====
-- general_executor.cpp: when an executor is running.
use cpp_msgpack_rpc.Common.{
  ℕ, ◌≡◌, refl, Bool, true, false, not, ◌&&◌, none, some, List, [], ◌∷◌, if◌then◌else◌, arith,
}
use cpp_msgpack_rpc.Executors.GeneralExecutor.{
  GeneralExecutor, new_executor, start, stop, try_stop, on_exception, is_running, handle_exception,
}

pub data Event (Exn : Type 0) : Type 0 where
  starts : Bool → Event Exn
  stops adds_callback : Event Exn
  throws : Exn → Event Exn

module _ {Exn : Type 0} where
  pub step : GeneralExecutor Exn → Event Exn → GeneralExecutor Exn
  step e (starts can_spawn) = (start can_spawn e).0
  step e stops = stop e
  step e adds_callback = on_exception e
  step e (throws x) = (handle_exception x e).0

  pub run : GeneralExecutor Exn → List (Event Exn) → GeneralExecutor Exn
  run e [] = e
  run e (x ∷ xs) = run (step e x) xs

  -- Whether an event starts the executor, and whether it ends its running.
  abbrev pub is_start : Event Exn → Bool
  is_start (starts can_spawn) = true
  is_start _ = false

  abbrev pub is_end : Event Exn → Bool
  is_end stops = true
  is_end (throws x) = true
  is_end _ = false

  abbrev pub any : (Event Exn → Bool) → List (Event Exn) → Bool
  any p [] = false
  any p (x ∷ xs) = let rest = any p xs in if p x then true else rest

  abbrev ended : GeneralExecutor Exn → Bool
  ended e = elim e.exception_in_thread [ some x ↦ true | none ↦ e.is_stopped ]

  step_flags :
      (e : GeneralExecutor Exn) (x : Event Exn)
      → ((step e x).is_started ≡ (if is_start x then true else e.is_started))
        × (ended (step e x) ≡ (if is_end x then true else ended e))
  unfolding step start stop on_exception handle_exception
  step_flags e (starts can_spawn) = (ground arith, ground arith)
  step_flags e stops = (ground arith, ground arith)
  step_flags e adds_callback = (ground arith, ground arith)
  step_flags e (throws x) = (ground arith, ground arith)

  run_flags :
      (e : GeneralExecutor Exn) (xs : List (Event Exn))
      → ((run e xs).is_started ≡ (if any is_start xs then true else e.is_started))
        × (ended (run e xs) ≡ (if any is_end xs then true else ended e))
  unfolding run
  run_flags e [] = (refl, refl)
  run_flags e (x ∷ xs) = (
    ground (arith, step_flags e x, run_flags (step e x) xs),
    ground (arith, step_flags e x, run_flags (step e x) xs),
  )

  -- A new executor is running just when it has been started at least once, and neither been
  -- stopped nor met an exception, whatever the order: nothing starts it again.
  pub is_running-run :
      (m n : ℕ) (xs : List (Event Exn))
      → is_running (run (new_executor m n) xs) ≡ (any is_start xs && not (any is_end xs))
  unfolding is_running
  is_running-run m n xs = ground (arith, run_flags (new_executor m n) xs)

module _ {Exn : Type 0} where
  pub try_stop-is_running :
      (ends : Bool) (x : GeneralExecutor Exn) → is_running (try_stop ends x).0 ≡ false
  unfolding try_stop stop is_running
  try_stop-is_running ends x = ground arith

  pub try_stop_waits :
      (ends : Bool) (x : GeneralExecutor Exn) → (try_stop ends x).1 ≡ false → ends ≡ false
  unfolding try_stop
  try_stop_waits ends x h = ground arith
