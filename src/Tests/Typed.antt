-- ===== src/Tests/Typed.antt =====
-- A call with types of a method that adds one.
use cpp_msgpack_rpc.Common.{ℕ, suc, ◌≡◌, refl, Option, none, some, List, [], ◌∷◌, ok}
use cpp_msgpack_rpc.Methods.MethodException.{Outcome}
use cpp_msgpack_rpc.Methods.MethodProcessor.{MethodDict, find, functional_method, process_call}
use cpp_msgpack_rpc.RemoteCall.{request_of}
use cpp_msgpack_rpc.RemoteCall.Typed.{with_object, seen, expected, process_call-get_result_as}
use cpp_msgpack_rpc.Tests.Toy.{toy, toy_allocator, number}
use cpp_msgpack_rpc.Tests.Laws.{toy-IsMsgpack}

abbrev written : ℕ → List ℕ
written n = 1 ∷ n ∷ []

abbrev read_one : List (List ℕ) → Option ℕ
read_one (o ∷ []) = number o
read_one _ = none

abbrev add_one : ℕ → Outcome (List ℕ) ℕ
add_one n = ok (suc n)

abbrev methods : MethodDict (List ℕ)
unfolding functional_method
methods = functional_method toy "add_one" 1 read_one (λ n. with_object written (add_one n)) ∷ []

found :
    find methods "add_one"
    ≡ some (functional_method toy "add_one" 1 read_one (λ n. with_object written (add_one n)))
unfolding find methods functional_method
found = refl

process_call-get_result_as_example :
    seen toy toy_allocator
      (λ o. "")
      number
      100
      (process_call toy methods (request_of toy toy_allocator "add_one" 5 (written 4 ∷ [])))
    ≡ expected toy toy_allocator (λ o. "") number (add_one 4)
process_call-get_result_as_example =
    process_call-get_result_as toy toy_allocator (λ o. "") methods "add_one" 1 5 100
      (λ n. written n ∷ []) read_one written number add_one 4 toy-IsMsgpack found refl refl
      (λ r. refl)
