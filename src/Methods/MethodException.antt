-- ===== src/Methods/MethodException.antt =====
-- methods/method_exception.cpp, and the exceptions that a call of a method can end with.
use cpp_msgpack_rpc.Common.{String, Result, ok, err}
use cpp_msgpack_rpc.Status.{Status, message}

-- A `MethodException` is a `std::exception` too; `other_exception` stands for what is none.
pub data Thrown (Object : Type 0) : Type 0 where
  method_exception : Object → Thrown Object
  std_exception : String → Thrown Object
  other_exception : Thrown Object

-- How code in a `try` block ends.
abbrev pub Outcome : (Object A : Type 0) → Type 0
Outcome Object A = Result (Thrown Object) A

-- An `MsgpackRPCException`, whose `what` is the message of its status.
unfoldable pub rpc_thrown : {Object A : Type 0} → Result Status A → Outcome Object A
rpc_thrown (ok a) = ok a
rpc_thrown (err s) = err (std_exception (message s))

-- `MethodException::what`.
abbrev pub method_exception_text : String
method_exception_text = "Method threw an exception."
