-- ===== src/Methods/MethodProcessor.antt =====
-- methods/method_dict.h, methods/method_processor_impl.h: the methods of a server by their names,
-- and the processor that answers requests with them.
pub mod Answers
use cpp_msgpack_rpc.Common.{
  ℕ, Option, none, some, List, [], ◌∷◌, Result, ok, err, ◌>>=◌, String, if◌then◌else◌,
}
use text.Mathlib.Text.{◌==◌}
use Prim.Native.String.{◌++◌}
use cpp_msgpack_rpc.Status.{Status, status, invalid_argument, invalid_message}
use cpp_msgpack_rpc.Messages.Msgpack.{Msgpack}
use cpp_msgpack_rpc.Messages.Parsed.{ParsedRequest, ParsedNotification}
use cpp_msgpack_rpc.Methods.MethodException.{
  Thrown, method_exception, std_exception, other_exception, Outcome, rpc_thrown,
  method_exception_text,
}
use cpp_msgpack_rpc.Methods.FunctionalMethod.{Response, error_response, call, call_void, notify}

-- `IMethod`.
pub record Method (Object : Type 0) : Type 0 where
  pub name : String
  pub call : ParsedRequest Object → Outcome Object (Response Object)
  pub notify : ParsedNotification Object → Outcome Object (Unit {0})

abbrev pub MethodDict : (Object : Type 0) → Type 0
MethodDict Object = List (Method Object)

module _ {Object : Type 0} where
  -- `methods_.find`.
  unfoldable pub find : MethodDict Object → String → Option (Method Object)
  find [] name = none
  find (m ∷ ms) name = let rest = find ms name in if m.name == name then some m else rest

  unfoldable pub append : MethodDict Object → Method Object → Result Status (MethodDict Object)
  append d m = elim (find d m.name) [
    | none ↦ ok (m ∷ d)
    | some _ ↦ err (status invalid_argument ("Duplicate method name " ++ m.name ++ "."))
  ]

  unfoldable pub get : MethodDict Object → String → Result Status (Method Object)
  get d name = elim (find d name) [
    | none ↦ err (status invalid_message ("Method " ++ name ++ " not found."))
    | some m ↦ ok m
  ]

module _ (M : Msgpack) where
  open M use {Object, of_string}

  -- The handler in `MethodProcessor::call`.
  unfoldable pub answer_exceptions :
      ℕ → Outcome Object (Response Object) → Outcome Object (Response Object)
  answer_exceptions id (ok response) = ok response
  answer_exceptions id (err (method_exception o)) =
      ok (error_response id (of_string method_exception_text))
  answer_exceptions id (err (std_exception text)) = ok (error_response id (of_string text))
  answer_exceptions id (err other_exception) = err other_exception

  unfoldable pub process_call :
      MethodDict Object → ParsedRequest Object → Outcome Object (Response Object)
  process_call d request =
      answer_exceptions request.id (rpc_thrown (get d request.method_name) >>= λ m. m.call request)

  -- The handler in `MethodProcessor::notify`.
  unfoldable pub ignore_exceptions : Outcome Object (Unit {0}) → Outcome Object (Unit {0})
  ignore_exceptions (ok u) = ok u
  ignore_exceptions (err (method_exception o)) = ok _
  ignore_exceptions (err (std_exception text)) = ok _
  ignore_exceptions (err other_exception) = err other_exception

  unfoldable pub process_notify :
      MethodDict Object → ParsedNotification Object → Outcome Object (Unit {0})
  process_notify d notification =
      ignore_exceptions (rpc_thrown (get d notification.method_name) >>= λ m. m.notify notification)

  -- The two classes of methods that are implemented by functions, with what their constructors
  -- store.
  unfoldable pub functional_method :
      {T : Type 0}
      → String
      → ℕ
      → (List Object → Option T)
      → (T → Outcome Object Object)
      → Method Object
  functional_method name n convert function = record {
    name = name;
    call = call M n convert function;
    notify = notify M n convert function;
  }

  unfoldable pub void_method :
      {T : Type 0}
      → String
      → ℕ
      → (List Object → Option T)
      → (T → Outcome Object (Unit {0}))
      → Method Object
  void_method name n convert function = record {
    name = name;
    call = call_void M n convert function;
    notify = notify M n convert function;
  }
