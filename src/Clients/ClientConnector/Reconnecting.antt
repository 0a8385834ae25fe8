-- ===== src/Clients/ClientConnector/Reconnecting.antt =====
-- client_connector.h: a connector with its attempts to connect and its sleeps.
use cpp_msgpack_rpc.Common.{
  ℕ, suc, ◌+◌, ◌≤◌, ◌≡◌, Bool, true, false, Option, none, some, List, [], ◌∷◌, Option-cases, inl,
  inr, arith,
}
use cpp_msgpack_rpc.Clients.ReconnectionTimer.{compute_waiting_time}
use cpp_msgpack_rpc.Clients.ClientConnector.{
  ClientConnector, Effect, try_connect, sleep, start, stop, on_connection, on_connection_failure,
  async_wait, on_connection_closed,
}

-- A connector with the attempts to connect that have not ended, the sleeps before the next, and
-- whether an exception has escaped from an attempt.
pub record World : Type 0 where
  pub connector : ClientConnector
  pub attempts : ℕ
  pub sleeps : ℕ
  pub escaped : Bool

abbrev pub attempts_in : List Effect → ℕ
attempts_in [] = 0
attempts_in (try_connect ∷ es) = suc (attempts_in es)
attempts_in (_ ∷ es) = attempts_in es

abbrev pub sleeps_in : List Effect → ℕ
sleeps_in [] = 0
sleeps_in (sleep t ∷ es) = suc (sleeps_in es)
sleeps_in (_ ∷ es) = sleeps_in es

-- What the effects of an operation start.
abbrev pub with_effects : ℕ → ℕ → Bool → ClientConnector × List Effect → World
with_effects attempts sleeps escaped (c, es) = record {
  connector = c;
  attempts = attempts_in es + attempts;
  sleeps = sleeps_in es + sleeps;
  escaped = escaped;
}

-- An attempt ends by a connection or a failure, or an exception escapes from it, a sleep ends, a
-- connection is closed (and this may be reported more than once), or the client is stopped.
pub data Step (w : World) : World → Type 0 where
  connects :
      (n : ℕ) (connection : ℕ)
      → w.attempts ≡ suc n
      → Step w (with_effects n w.sleeps w.escaped (on_connection w.connector connection))
  escapes : (n : ℕ) → w.attempts ≡ suc n → Step w (record w { attempts = n; escaped = true })
  fails :
      (n : ℕ) (jitter : ℕ) (r : ClientConnector × List Effect)
      → w.attempts ≡ suc n
      → on_connection_failure w.connector jitter ≡ some r
      → Step w (with_effects n w.sleeps w.escaped r)
  wakes : (n : ℕ) → w.sleeps ≡ suc n → Step w (record w { attempts = suc w.attempts; sleeps = n })
  closes : Step w (with_effects w.attempts w.sleeps w.escaped (on_connection_closed w.connector))
  stops : Step w (with_effects w.attempts w.sleeps w.escaped (stop w.connector))

pub data Reach (w : World) : World → Type 0 where
  here : Reach w w
  next : {u v : World} → Reach w u → Step u v → Reach w v

abbrev count : Option ℕ → ℕ
count none = 0
count (some c) = 1

abbrev pub IsTrying : World → Type 0
IsTrying w =
    w.connector.is_stopped ≡ false
    → w.escaped ≡ false
    → 1 ≤ count w.connector.connection + w.attempts + w.sleeps

failed :
    (w : World) (n j : ℕ) (r : ClientConnector × List Effect)
    → on_connection_failure w.connector j ≡ some r
    → IsTrying w
    → IsTrying (with_effects n w.sleeps w.escaped r)
unfolding on_connection_failure async_wait
failed w n j r f t = elim (Option-cases (compute_waiting_time w.connector.retry_timer j)) [
  | inl g ↦ ground arith
  | inr (p, g) ↦ ground arith
]

Step-IsTrying : {w v : World} → Step w v → IsTrying w → IsTrying v
unfolding on_connection on_connection_failure on_connection_closed stop
Step-IsTrying (connects n c e) t = ground arith
Step-IsTrying {w} (fails n j r e f) t = failed w n j r f t
Step-IsTrying (escapes n e) t = λ h g. cc
Step-IsTrying (wakes n e) t = λ h g. ground arith
Step-IsTrying closes t = ground arith
Step-IsTrying stops t = ground arith

Reach-IsTrying : {w v : World} → IsTrying w → Reach w v → IsTrying v
Reach-IsTrying t here = t
Reach-IsTrying t (next r s) = Step-IsTrying s (Reach-IsTrying t r)

-- From a start on, until it is stopped or an exception escapes from an attempt to connect, a connector
-- has a connection, or tries to get one, or sleeps before it tries: it never gives up.
pub start-IsTrying :
    (c : ClientConnector) (v : World) → Reach (with_effects 0 0 false (start c)) v → IsTrying v
unfolding start
start-IsTrying c v r = Reach-IsTrying (λ h g. omega arith) r
