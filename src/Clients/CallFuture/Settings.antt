-- ===== src/Clients/CallFuture/Settings.antt =====
-- call_future_impl.h: a sequence of results and errors for one future.
use cpp_msgpack_rpc.Common.{
  ℕ, ◌≡◌, refl, ap, ◌∙◌, true, List, [], ◌∷◌, if◌then◌else◌, Bool-cases, inl, inr, Result, ok, err,
  arith,
}
use cpp_msgpack_rpc.Status.{Status, status, code, timeout}
use cpp_msgpack_rpc.Messages.Parsed.{CallResult}
use cpp_msgpack_rpc.Clients.CallFuture.{
  CallFuture, is_success_code, new_future, set_result, set_error, get_result,
}

-- What may be set.
pub data Setting (Object : Type 0) : Type 0 where
  sets_result : CallResult Object → Setting Object
  sets_error : Status → Setting Object

module _ {Object : Type 0} where
  abbrev kept : CallFuture Object → Result Status (CallFuture Object) → CallFuture Object
  kept f (ok g) = g
  kept f (err e) = f

  -- A call that throws leaves the future as it is.
  abbrev pub apply_setting : CallFuture Object → Setting Object → CallFuture Object
  apply_setting f (sets_result r) = set_result f r
  apply_setting f (sets_error e) = kept f (set_error f e)

  abbrev pub apply_settings : CallFuture Object → List (Setting Object) → CallFuture Object
  apply_settings f [] = f
  apply_settings f (s ∷ ss) = apply_settings (apply_setting f s) ss

  -- What the caller is told of some settings.
  abbrev pub first_setting : List (Setting Object) → Result Status (CallResult Object)
  first_setting [] = err (status timeout "Result of an RPC couldn't be received within a timeout.")
  first_setting (sets_result r ∷ ss) = ok r
  first_setting (sets_error e ∷ ss) = if is_success_code (code e) then first_setting ss else err e

  apply_setting_set :
      (f : CallFuture Object) (s : Setting Object) → f.is_set ≡ true → apply_setting f s ≡ f
  unfolding set_result set_error
  apply_setting_set f (sets_result r) h = ground arith
  apply_setting_set f (sets_error e) h = ground arith

  set_keeps :
      (f : CallFuture Object) (ss : List (Setting Object))
      → f.is_set ≡ true
      → apply_settings f ss ≡ f
  set_keeps f [] h = refl
  set_keeps f (s ∷ ss) h =
      ap (λ g. apply_settings g ss) (apply_setting_set f s h) ∙ set_keeps f ss h

  set_error_new :
      (deadline : ℕ) (e : Status)
      → apply_setting (new_future deadline) (sets_error e) ≡ (
          if is_success_code (code e)
          then new_future deadline
          else record (new_future deadline) { error = e; is_set = true })
  unfolding set_error
  set_error_new deadline e = ground arith

  -- The first result or error that is set is what the caller gets, whatever is set later; an error
  -- with the code of a success is refused, and with nothing set the caller gets a timeout.
  pub get_result-apply_settings :
      (deadline : ℕ) (ss : List (Setting Object))
      → get_result (apply_settings (new_future deadline) ss) ≡ first_setting ss
  get_result-apply_settings deadline [] = unfold get_result in refl
  get_result-apply_settings deadline (sets_result r ∷ ss) =
      rw (set_keeps (set_result (new_future deadline) r) ss (unfold set_result in refl))
        (unfold set_result get_result in refl)
  get_result-apply_settings deadline (sets_error e ∷ ss) =
      elim (Bool-cases (is_success_code (code e))) [
        | inl refused ↦
            rw (set_error_new deadline e, refused) (get_result-apply_settings deadline ss)
        | inr taken ↦
            rw (set_error_new deadline e, taken)
              (rw (set_keeps (record (new_future deadline) { error = e; is_set = true }) ss refl)
                (unfold get_result in refl))
      ]
