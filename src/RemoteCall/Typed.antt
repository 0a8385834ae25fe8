-- ===== src/RemoteCall/Typed.antt =====
-- clients/call_future.h, clients/server_exception.cpp: a call with types for its parameters and its
-- result, of a method that is implemented by a function.
use Prim.Native.String.{◌++◌}
use cpp_msgpack_rpc.Common.{
  ℕ, ◌≡◌, refl, ap, ◌∙◌, Bool-cases, inl, inr, Option, none, some, String, List, length, ==_refl,
  if◌then◌else◌, Result, ok, err, ◌>>=◌,
}
use cpp_msgpack_rpc.Status.{Status, status, server_error}
use cpp_msgpack_rpc.Binary.Header.{Allocator}
use cpp_msgpack_rpc.Messages.Msgpack.{Msgpack, IsMsgpack}
use cpp_msgpack_rpc.Messages.Parse.{parameters_as}
use cpp_msgpack_rpc.Messages.Parsed.{CallResult, is_success, result_as, convert_or, create_result}
use cpp_msgpack_rpc.Clients.CallFuture.{
  CallFuture, new_future, set_result, get_result, wait_until_impl, get_result_impl,
}
use cpp_msgpack_rpc.Methods.MethodException.{
  method_exception, std_exception, other_exception, Outcome, rpc_thrown,
}
use cpp_msgpack_rpc.Methods.FunctionalMethod.{
  Response, error_response, invoke_with_tuple, catch_method_exception, call,
}
use cpp_msgpack_rpc.Methods.MethodProcessor.{
  MethodDict, find, get, answer_exceptions, process_call, functional_method,
}
use cpp_msgpack_rpc.RemoteCall.{response_result, request_of}

-- What `get_result` of a future throws.
pub data CallError (Object : Type 0) : Type 0 where
  rpc_exception : Status → CallError Object
  -- ServerException: its status and the object of the error.
  server_exception : Status → Object → CallError Object

-- With the text of an object.
module _ {Object : Type 0} (object_text : Object → String) where
  unfoldable pub new_server_exception : Object → CallError Object
  new_server_exception o =
      server_exception (status server_error ("An error in a server: " ++ object_text o)) o

  abbrev pub rpc_result : {R : Type 0} → Result Status R → Result (CallError Object) R
  rpc_result (ok r) = ok r
  rpc_result (err s) = err (rpc_exception s)

  -- CallFuture<Result>::get_from_call_result; `convert` is the library's conversion to the type.
  unfoldable pub get_from_call_result :
      {R : Type 0} → (Object → Option R) → CallResult Object → Result (CallError Object) R
  unfolding new_server_exception
  get_from_call_result convert r =
      if is_success r then rpc_result (result_as convert r) else err (new_server_exception r.object)

  -- CallFuture<Result>::get_result and get_result_within, when their wait ends.
  unfoldable pub get_result_as :
      {R : Type 0} → (Object → Option R) → CallFuture Object → Result (CallError Object) R
  unfolding get_from_call_result
  get_result_as convert f = rpc_result (get_result f) >>= get_from_call_result convert

-- A function whose result is made into an object.
abbrev pub with_object :
    {Object R : Type 0} → (R → Object) → Outcome Object R → Outcome Object Object
with_object write (ok r) = ok (write r)
with_object write (err x) = err x

module _ (M : Msgpack) (a : Allocator) (object_text : M.Object → String) where
  open M use {Object, is_nil, nil, of_string}

  -- What the caller sees of an error of the method: an error that is nil comes back as a result.
  abbrev pub error_seen : {R : Type 0} → (Object → Option R) → Object → Result (CallError Object) R
  error_seen convert o =
      if is_nil o
      then rpc_result object_text (convert_or (convert nil) "Invalid type of the result.")
      else err (new_server_exception object_text o)

  -- What the caller gets, if there is a response, for how the function of the method ends.
  abbrev pub expected :
      {R : Type 0} → (Object → Option R) → Outcome Object R → Option (Result (CallError Object) R)
  expected convert (ok r) = some (ok r)
  expected convert (err (method_exception o)) = some (error_seen convert o)
  expected convert (err (std_exception text)) = some (error_seen convert (of_string text))
  expected convert (err other_exception) = none

  -- The response of a server comes to the future of the call.
  abbrev pub seen :
      {R : Type 0}
      → (Object → Option R)
      → ℕ
      → Outcome Object (Response Object)
      → Option (Result (CallError Object) R)
  seen convert deadline (ok x) =
      some (
        get_result_as object_text convert
          (set_result (new_future deadline) (response_result M a x)))
  seen convert deadline (err x) = none

  future_result :
      {R : Type 0} (convert : Object → Option R) (deadline : ℕ) (r : CallResult Object)
      → get_result_as object_text convert (set_result (new_future deadline) r)
        ≡ get_from_call_result object_text convert r
  unfolding get_result_as get_result set_result wait_until_impl get_result_impl
  future_result convert deadline r = refl

  error_result :
      {R : Type 0} (convert : Object → Option R) (id : ℕ) (o : Object)
      → get_from_call_result object_text convert (response_result M a (error_response id o))
        ≡ error_seen convert o
  unfolding get_from_call_result response_result result_as
  error_result convert id o = elim (Bool-cases (is_nil o)) [ inl e ↦ rw e refl | inr e ↦ rw e refl ]

  value_result :
      {R : Type 0} (convert : Object → Option R) (o : Object) (r : R)
      → convert o ≡ some r
      → get_from_call_result object_text convert (create_result o) ≡ ok r
  unfolding get_from_call_result result_as convert_or
  value_result convert o r e = rw (e, result_as, convert_or) refl

  -- What the server and the caller make of an end of the function.
  ended :
      {R : Type 0} (write : R → Object) (convert : Object → Option R) (id deadline : ℕ)
      (o : Outcome Object R)
      → ((r : R) → convert (write r) ≡ some r)
      → seen convert deadline (
          answer_exceptions M id (
            catch_method_exception M id (elim (with_object write o) [
              | ok b ↦ ok b
              | err (method_exception e) ↦ err (method_exception e)
              | err (std_exception text) ↦ err (method_exception (of_string text))
              | err other_exception ↦ err other_exception
            ])))
        ≡ expected convert o
  unfolding answer_exceptions catch_method_exception response_result
  ended write convert id deadline (ok r) back = ap some (
      future_result convert deadline (create_result (write r))
      ∙ value_result convert (write r) r (back r))
  ended write convert id deadline (err (method_exception e)) back = ap some (
      future_result convert deadline (response_result M a (error_response id e))
      ∙ error_result convert id e)
  ended write convert id deadline (err (std_exception text)) back = ap some (
      future_result convert deadline (response_result M a (error_response id (of_string text)))
      ∙ error_result convert id (of_string text))
  ended write convert id deadline (err other_exception) back = refl

  -- A call with types. A client writes its parameters, a method of that name is found that a function
  -- with n parameters of these types implements, and the client waits for a result of the function's
  -- type. If what is written is read back at these types, then the caller gets what the function
  -- returned, or an exception with the error that it threw; an error that is nil is read as a result. A
  -- function that throws what is no standard exception gives no response.
  pub process_call-get_result_as :
      {T R : Type 0} (d : MethodDict Object) (name : String) (n id deadline : ℕ)
      (write : T → List Object) (read : List Object → Option T) (write_result : R → Object)
      (convert : Object → Option R) (function : T → Outcome Object R) (parameters : T)
      → IsMsgpack M
      → find d name
        ≡ some (functional_method M name n read (λ t. with_object write_result (function t)))
      → length (write parameters) ≡ n
      → read (write parameters) ≡ some parameters
      → ((r : R) → convert (write_result r) ≡ some r)
      → seen convert deadline (process_call M d (request_of M a name id (write parameters)))
        ≡ expected convert (function parameters)
  unfolding process_call get functional_method call parameters_as invoke_with_tuple rpc_thrown
  process_call-get_result_as d name n id deadline write read write_result convert function
        parameters laws found count back back_result =
      rw
        (
          found,
          get,
          functional_method,
          call,
          parameters_as,
          laws.elements-of_array,
          count,
          ==_refl n,
          back,
        )
        (ended write_result convert id deadline (function parameters) back_result)
