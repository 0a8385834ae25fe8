-- ===== src/Clients/ReconnectionTimer.antt =====
-- reconnection_timer.h: how long a client waits before it tries to connect again. Times are
-- numbers of nanoseconds that are not negative, in signed words of 64 bits.
use native.Mathlib.Nat.{pow-suc}
use cpp_msgpack_rpc.Common.{
  ℕ, suc, ◌+◌, ◌*◌, ◌^◌, ◌≤◌, ◌≡◌, refl, min, Option, none, some, List, [], ◌∷◌, ltb, if◌then◌else◌,
  Result, ok, err, arith,
}
use cpp_msgpack_rpc.Status.{Status, status, invalid_argument}

pub record ReconnectionTimer : Type 0 where
  pub initial_waiting_time : ℕ
  pub max_waiting_time : ℕ
  pub next_wait_time_without_jitter : ℕ

-- The constructor.
unfoldable pub new_timer : ℕ → ℕ → Result Status ReconnectionTimer
new_timer initial max =
    if ltb max initial
    then err (
        status invalid_argument
          "The maximum waiting time must be longer than of equal to the initial waiting time.")
    else ok (record {
      initial_waiting_time = initial;
      max_waiting_time = max;
      next_wait_time_without_jitter = initial;
    })

-- `none` is a signed overflow, which is undefined.
abbrev checked : ℕ → Option ℕ
checked n = if ltb n (2 ^ 63) then some n else none

capped : ReconnectionTimer → ℕ → ReconnectionTimer
capped t doubled = record t {
  next_wait_time_without_jitter =
      if ltb t.max_waiting_time doubled then t.max_waiting_time else doubled;
}

-- With the jitter that the distribution gives.
unfoldable pub compute_waiting_time : ReconnectionTimer → ℕ → Option (ℕ × ReconnectionTimer)
unfolding capped
compute_waiting_time t jitter = elim (checked (t.next_wait_time_without_jitter + jitter)) [
  | none ↦ none
  | some wait_time ↦ elim (checked (t.next_wait_time_without_jitter * 2)) [
    | none ↦ none
    | some doubled ↦ some (wait_time, capped t doubled)
  ]
]

unfoldable pub reset : ReconnectionTimer → ReconnectionTimer
reset t = record t { next_wait_time_without_jitter = t.initial_waiting_time }

-- The waits of some failures in a row, given their jitters.
pub waits : ReconnectionTimer → List ℕ → Option (List ℕ)
waits t [] = some []
waits t (j ∷ js) = elim (compute_waiting_time t j) [
  | none ↦ none
  | some (w, u) ↦ elim (waits u js) [ none ↦ none | some ws ↦ some (w ∷ ws) ]
]

-- Exponential back-off with a cap, after n failures.
abbrev pub backoff : ℕ → ℕ → ℕ → List ℕ → List ℕ
backoff initial max n [] = []
backoff initial max n (j ∷ js) = (min (initial * 2 ^ n) max + j) ∷ backoff initial max (suc n) js

abbrev pub AllAtMost : ℕ → List ℕ → Type 0
AllAtMost b [] = Unit {0}
AllAtMost b (j ∷ js) = (j ≤ b) × AllAtMost b js

doubled_capped :
    (i m p : ℕ) → (if ltb m (min (i * p) m * 2) then m else min (i * p) m * 2) ≡ min (i * (p * 2)) m
doubled_capped i m p = ground arith

compute_fits :
    (t : ReconnectionTimer) (j : ℕ)
    → t.next_wait_time_without_jitter ≤ 2 ^ 61
    → j ≤ 2 ^ 61
    → compute_waiting_time t j
      ≡ some (t.next_wait_time_without_jitter + j, capped t (t.next_wait_time_without_jitter * 2))
unfolding compute_waiting_time
compute_fits t j h k = ground arith

capped-next :
    (t : ReconnectionTimer) (n : ℕ)
    → t.next_wait_time_without_jitter ≡ min (t.initial_waiting_time * 2 ^ n) t.max_waiting_time
    → (capped t (t.next_wait_time_without_jitter * 2)).next_wait_time_without_jitter
      ≡ min (t.initial_waiting_time * 2 ^ suc n) t.max_waiting_time
unfolding capped
capped-next t n e =
    rw (e, pow-suc 2 n) (doubled_capped t.initial_waiting_time t.max_waiting_time (2 ^ n))

waits-backoff_from :
    (t : ReconnectionTimer) (n : ℕ) (js : List ℕ)
    → t.max_waiting_time ≤ 2 ^ 61
    → AllAtMost (2 ^ 61) js
    → t.next_wait_time_without_jitter ≡ min (t.initial_waiting_time * 2 ^ n) t.max_waiting_time
    → waits t js ≡ some (backoff t.initial_waiting_time t.max_waiting_time n js)
unfolding waits capped
waits-backoff_from t n [] top small e = refl
waits-backoff_from t n (j ∷ js) top small e = ground (
  arith,
  compute_fits t j (omega arith) small.0,
  waits-backoff_from (capped t (t.next_wait_time_without_jitter * 2)) (suc n) js top small.1
      (capped-next t n e),
)

-- After a reset the waits double from the initial one up to the maximum, each with its jitter on
-- top, and nothing overflows, if the initial time is not above the maximum and neither the maximum
-- nor a jitter is above 2^61 nanoseconds.
pub waits-reset :
    (t : ReconnectionTimer) (js : List ℕ)
    → t.initial_waiting_time ≤ t.max_waiting_time
    → t.max_waiting_time ≤ 2 ^ 61
    → AllAtMost (2 ^ 61) js
    → waits (reset t) js ≡ some (backoff t.initial_waiting_time t.max_waiting_time 0 js)
unfolding reset
waits-reset t js le top small =
    waits-backoff_from (record t { next_wait_time_without_jitter = t.initial_waiting_time }) 0 js
      top small (omega arith)
