-- ===== src/Methods/MethodProcessor/Answers.antt =====
-- method_processor_impl.h, functional_method.h: what a processor answers.
use cpp_msgpack_rpc.Common.{
  ℕ, ◌≡◌, refl, Option, none, some, List, [], ◌∷◌, Result, ok, err, ◌>>=◌, String, Bool, true,
  false, ◌⊎◌, inl, inr, if◌then◌else◌, arith,
}
use text.Mathlib.Text.{◌==◌}
use cpp_msgpack_rpc.Status.{Status}
use cpp_msgpack_rpc.Messages.Msgpack.{Msgpack}
use cpp_msgpack_rpc.Messages.Parsed.{ParsedRequest}
use cpp_msgpack_rpc.Messages.Parse.{parameters_as}
use cpp_msgpack_rpc.Methods.MethodException.{
  method_exception, std_exception, other_exception, Outcome, rpc_thrown,
}
use cpp_msgpack_rpc.Methods.FunctionalMethod.{
  Response, successful_response, error_response, invoke_with_tuple, catch_method_exception, call,
  answer_void, call_void,
}
use cpp_msgpack_rpc.Methods.MethodProcessor.{
  Method, MethodDict, find, get, answer_exceptions, process_call, functional_method, void_method,
}

abbrev pub response_id : {Object : Type 0} → Response Object → ℕ
response_id (successful_response id o) = id
response_id (error_response id o) = id

-- A call ends with a response to that id, or with an exception that is no `std::exception`.
abbrev pub IsAnswered : {Object : Type 0} → ℕ → Outcome Object (Response Object) → Type 0
IsAnswered id (ok r) = response_id r ≡ id
IsAnswered id (err other_exception) = Unit
IsAnswered id (err _) = ⊥

-- A call that ends without an exception ends with a response to that id.
abbrev pub Responds : {Object : Type 0} → ℕ → Outcome Object (Response Object) → Type 0
Responds id (ok r) = response_id r ≡ id
Responds id (err _) = Unit

module _ (M : Msgpack) where
  open M use {Object, of_string, nil}

  catch-Responds :
      (id : ℕ) (o : Outcome Object Object) → Responds id (catch_method_exception M id o)
  unfolding catch_method_exception
  catch-Responds id (ok o) = refl
  catch-Responds id (err (method_exception o)) = refl
  catch-Responds id (err (std_exception text)) = _
  catch-Responds id (err other_exception) = _

  answer_void-Responds : (id : ℕ) (o : Outcome Object (Unit {0})) → Responds id (answer_void M id o)
  unfolding answer_void
  answer_void-Responds id (ok o) = refl
  answer_void-Responds id (err (method_exception o)) = refl
  answer_void-Responds id (err (std_exception text)) = refl
  answer_void-Responds id (err other_exception) = _

  -- Both classes of methods respond to the id of the request.
  pub functional_method-Responds :
      {T : Type 0} (name : String) (n : ℕ) (convert : List Object → Option T)
      (function : T → Outcome Object Object) (r : ParsedRequest Object)
      → Responds r.id ((functional_method M name n convert function).call r)
  unfolding functional_method call
  functional_method-Responds name n convert function r = catch-Responds r.id _

  pub void_method-Responds :
      {T : Type 0} (name : String) (n : ℕ) (convert : List Object → Option T)
      (function : T → Outcome Object (Unit {0})) (r : ParsedRequest Object)
      → Responds r.id ((void_method M name n convert function).call r)
  unfolding void_method call_void
  void_method-Responds name n convert function r = answer_void-Responds r.id _

  pub data AllRespond : MethodDict Object → Type 0 where
    no_method : AllRespond []
    one_more :
        (m : Method Object) (d : MethodDict Object)
        → ((r : ParsedRequest Object) → Responds r.id (m.call r))
        → AllRespond d
        → AllRespond (m ∷ d)

  answer_exceptions-IsAnswered :
      (id : ℕ) (o : Outcome Object (Response Object))
      → Responds id o
      → IsAnswered id (answer_exceptions M id o)
  unfolding answer_exceptions
  answer_exceptions-IsAnswered id (ok r) v = v
  answer_exceptions-IsAnswered id (err (method_exception o)) v = refl
  answer_exceptions-IsAnswered id (err (std_exception text)) v = refl
  answer_exceptions-IsAnswered id (err other_exception) v = _

  chosen :
      (b : Bool) (k m : Method Object) (f : Option (Method Object))
      → (if b then some k else f) ≡ some m
      → (k ≡ m) ⊎ (f ≡ some m)
  chosen true k m f e = inl cc
  chosen false k m f e = inr e

  find-Responds :
      (d : MethodDict Object) (name : String) (m : Method Object) (r : ParsedRequest Object)
      → AllRespond d
      → find d name ≡ some m
      → Responds r.id (m.call r)
  unfolding find
  find-Responds _ name m r no_method e = absurd (ground arith)
  find-Responds _ name m r (one_more k d v vs) e =
      elim (chosen (k.name == name) k m (find d name) e) [
        | inl same ↦ rw⁻¹ same (v r)
        | inr later ↦ find-Responds d name m r vs later
      ]

  got-Responds :
      (d : MethodDict Object) (r : ParsedRequest Object) (f : Option (Method Object))
      → find d r.method_name ≡ f
      → AllRespond d
      → Responds r.id (rpc_thrown (get d r.method_name) >>= λ m. m.call r)
  unfolding get rpc_thrown
  got-Responds d r none e v = rw (e, get, Responds) _
  got-Responds d r (some m) e v = rw (e, get, Responds) (find-Responds d r.method_name m r v e)

  -- A processor whose methods respond to the id of their request answers every request to its id,
  -- also when there is no method of the name, the parameters do not fit or the method throws; only
  -- an exception that is no `std::exception` goes on to the caller.
  pub process_call-IsAnswered :
      (d : MethodDict Object) (r : ParsedRequest Object)
      → AllRespond d
      → IsAnswered r.id (process_call M d r)
  unfolding process_call
  process_call-IsAnswered d r v =
      answer_exceptions-IsAnswered r.id _ (got-Responds d r (find d r.method_name) refl v)

  returned_agrees :
      {T : Type 0} (id : ℕ) (function : T → Outcome Object (Unit {0})) (t : T)
      (o : Outcome Object (Unit {0}))
      → function t ≡ o
      → answer_exceptions M id (answer_void M id (function t))
        ≡ answer_exceptions M id
            (catch_method_exception M id (invoke_with_tuple M (λ x. function x >>= λ u. ok nil) t))
  unfolding invoke_with_tuple answer_void answer_exceptions catch_method_exception
  returned_agrees id function t (ok u) e = rw (e, invoke_with_tuple) refl
  returned_agrees id function t (err (method_exception o)) e = rw (e, invoke_with_tuple) refl
  returned_agrees id function t (err (std_exception text)) e = rw (e, invoke_with_tuple) refl
  returned_agrees id function t (err other_exception) e = rw (e, invoke_with_tuple) refl

  converted_agrees :
      {T : Type 0} (id : ℕ) (function : T → Outcome Object (Unit {0})) (p : Result Status T)
      → answer_exceptions M id (answer_void M id (rpc_thrown p >>= function))
        ≡ answer_exceptions M id (
            catch_method_exception M id
              (rpc_thrown p >>= invoke_with_tuple M (λ x. function x >>= λ u. ok nil)))
  unfolding rpc_thrown answer_void answer_exceptions catch_method_exception
  converted_agrees id function (ok t) = returned_agrees id function t (function t) refl
  converted_agrees id function (err s) = refl

  -- In a processor, `call` of a method without a result answers every request as `call` of a method
  -- with a result does whose function returns nil at the end, although the two catch the
  -- exceptions in different places.
  pub call_void-call :
      {T : Type 0} (n : ℕ) (convert : List Object → Option T)
      (function : T → Outcome Object (Unit {0})) (r : ParsedRequest Object)
      → answer_exceptions M r.id (call_void M n convert function r)
        ≡ answer_exceptions M r.id (call M n convert (λ t. function t >>= λ u. ok nil) r)
  unfolding call_void call
  call_void-call n convert function r =
      converted_agrees r.id function (parameters_as M n convert r.parameters)
