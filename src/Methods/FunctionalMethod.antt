-- ===== src/Methods/FunctionalMethod.antt =====
-- methods/functional_method.h: methods that are implemented by functions, one class for functions
-- with a result and one for functions without. The function is a parameter: what it returns or
-- throws for its arguments, of type T.
use cpp_msgpack_rpc.Common.{ℕ, Option, List, ok, err, ◌>>=◌}
use cpp_msgpack_rpc.Messages.Msgpack.{Msgpack}
use cpp_msgpack_rpc.Messages.Parsed.{ParsedRequest, ParsedNotification}
use cpp_msgpack_rpc.Messages.Parse.{parameters_as}
use cpp_msgpack_rpc.Methods.MethodException.{
  method_exception, std_exception, other_exception, Outcome, rpc_thrown,
}

-- The call of the serializer that a response comes from.
pub data Response (Object : Type 0) : Type 0 where
  successful_response : ℕ → Object → Response Object
  error_response : ℕ → Object → Response Object

module _ (M : Msgpack) where
  open M use {Object, of_string, nil}

  -- `invoke_with_tuple`: a standard exception becomes a `MethodException` with its text.
  unfoldable pub invoke_with_tuple : {T A : Type 0} → (T → Outcome Object A) → T → Outcome Object A
  invoke_with_tuple function parameters = elim (function parameters) [
    | ok a ↦ ok a
    | err (method_exception o) ↦ err (method_exception o)
    | err (std_exception text) ↦ err (method_exception (of_string text))
    | err other_exception ↦ err other_exception
  ]

  -- The handler in `call` of a method with a result: other exceptions go on to the caller.
  unfoldable pub catch_method_exception :
      ℕ → Outcome Object Object → Outcome Object (Response Object)
  catch_method_exception id (ok result) = ok (successful_response id result)
  catch_method_exception id (err (method_exception o)) = ok (error_response id o)
  catch_method_exception id (err (std_exception text)) = err (std_exception text)
  catch_method_exception id (err other_exception) = err other_exception

  -- `call` of a method with a result, for a function with n parameters.
  unfoldable pub call :
      {T : Type 0}
      → ℕ
      → (List Object → Option T)
      → (T → Outcome Object Object)
      → ParsedRequest Object
      → Outcome Object (Response Object)
  call n convert function request =
      catch_method_exception request.id
        (rpc_thrown (parameters_as M n convert request.parameters) >>= invoke_with_tuple function)

  -- The handlers in `call` of a method without a result.
  unfoldable pub answer_void : ℕ → Outcome Object (Unit {0}) → Outcome Object (Response Object)
  answer_void id (ok u) = ok (successful_response id nil)
  answer_void id (err (method_exception o)) = ok (error_response id o)
  answer_void id (err (std_exception text)) = ok (error_response id (of_string text))
  answer_void id (err other_exception) = err other_exception

  -- `call` of a method without a result.
  unfoldable pub call_void :
      {T : Type 0}
      → ℕ
      → (List Object → Option T)
      → (T → Outcome Object (Unit {0}))
      → ParsedRequest Object
      → Outcome Object (Response Object)
  call_void n convert function request =
      answer_void request.id
        (rpc_thrown (parameters_as M n convert request.parameters) >>= function)

  -- The handlers in `notify`, which log the exceptions.
  unfoldable pub log_exceptions : {A : Type 0} → Outcome Object A → Outcome Object (Unit {0})
  log_exceptions (ok a) = ok _
  log_exceptions (err (method_exception o)) = ok _
  log_exceptions (err (std_exception text)) = ok _
  log_exceptions (err other_exception) = err other_exception

  -- `notify`, the same in both classes.
  unfoldable pub notify :
      {T A : Type 0}
      → ℕ
      → (List Object → Option T)
      → (T → Outcome Object A)
      → ParsedNotification Object
      → Outcome Object (Unit {0})
  notify n convert function notification =
      log_exceptions (rpc_thrown (parameters_as M n convert notification.parameters) >>= function)
