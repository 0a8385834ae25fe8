-- ===== src/Clients/CallFuture.antt =====
-- call_future_impl.h, call_promise.h.h, call_future.h: the result of a call, set once.
pub mod Settings
use cpp_msgpack_rpc.Common.{
  ℕ, ◌+◌, ◌≡◌, refl, ◌≢◌, Bool, true, false, Option, none, some, min, List, [], ◌∷◌, if◌then◌else◌,
  Result, ok, err, ◌>>=◌, arith,
}
use cpp_msgpack_rpc.Status.{
  Status, StatusCode, status, code, no_error, success, invalid_argument, timeout,
}
use cpp_msgpack_rpc.Messages.Parsed.{CallResult, is_success, result_as}

-- `CallFutureImpl`, which the promise of a call and the caller share.
pub record CallFuture (Object : Type 0) : Type 0 where
  pub result : Option (CallResult Object)
  pub error : Status
  pub is_set : Bool
  pub deadline : ℕ

abbrev pub is_success_code : StatusCode → Bool
is_success_code success = true
is_success_code _ = false

module _ {Object : Type 0} where
  abbrev pub new_future : ℕ → CallFuture Object
  new_future deadline = record {
    result = none;
    error = no_error;
    is_set = false;
    deadline = deadline;
  }

  -- `set(CallResult)`.
  unfoldable pub set_result : CallFuture Object → CallResult Object → CallFuture Object
  set_result f r = if f.is_set then f else record f { result = some r; is_set = true }

  -- `set(const Status&)`.
  unfoldable pub set_error : CallFuture Object → Status → Result Status (CallFuture Object)
  set_error f e =
      if f.is_set
      then ok f
      else if is_success_code (code e)
      then err (status invalid_argument "Invalid error status.")
      else ok (record f { error = e; is_set = true })

  -- `wait_until_impl`, on the future as it is when the wait ends: when it is set, or at the
  -- deadline.
  unfoldable pub wait_until_impl : CallFuture Object → Result Status (Unit {0})
  wait_until_impl f =
      if f.is_set
      then ok tt
      else err (status timeout "Result of an RPC couldn't be received within a timeout.")

  -- When `wait` and `wait_for` give up.
  abbrev pub wait_deadline : CallFuture Object → ℕ
  wait_deadline f = f.deadline

  abbrev pub wait_for_deadline : CallFuture Object → ℕ → ℕ → ℕ
  wait_for_deadline f now duration = min (now + duration) f.deadline

  unfoldable pub get_result_impl : CallFuture Object → Result Status (CallResult Object)
  get_result_impl f = elim f.result [ some r ↦ ok r | none ↦ err f.error ]

  -- `get_result` and `get_result_within`, on the future as it is when their wait ends.
  unfoldable pub get_result : CallFuture Object → Result Status (CallResult Object)
  unfolding wait_until_impl get_result_impl
  get_result f = do _ ← wait_until_impl f; get_result_impl f
