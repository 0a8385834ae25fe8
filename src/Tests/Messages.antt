-- ===== src/Tests/Messages.antt =====
-- Messages, buffers and remote calls at concrete values.
use cpp_msgpack_rpc.Common.{
  false, ℕ, ◌+◌, ◌==◌, ◌<◌, ◌≡◌, refl, Option, none, some, List, [], ◌∷◌, ◌++◌, ok, err, ◌>>=◌,
  if◌then◌else◌, arith,
}
use cpp_msgpack_rpc.Binary.Header.{Header, initial_memory_size}
use cpp_msgpack_rpc.Binary.Growth.{Grown, grow-Grown}
use cpp_msgpack_rpc.Binary.Header.{grow}
use cpp_msgpack_rpc.Binary.Buffer.{new_buffer, write_all, bytes_of}
use cpp_msgpack_rpc.Binary.Buffer.Append.{Wrote, new_buffer-write_all}
use cpp_msgpack_rpc.Binary.Sharing.{Store, at}
use cpp_msgpack_rpc.Binary.Sharing.Counts.{IsCounted, AreFew, assigns, step, step-IsCounted}
use cpp_msgpack_rpc.Messages.Parsed.{a_request, a_response, a_notification, create_result}
use cpp_msgpack_rpc.Messages.Parse.{parameters_as}
use cpp_msgpack_rpc.Messages.Serialize.{
  serialize_request, serialize_successful_response, serialize_error_response,
  serialize_notification,
}
use cpp_msgpack_rpc.Messages.MessageParser.{new_parser, consumed, try_parse}
use cpp_msgpack_rpc.Messages.RoundTrip.{
  Survives, try_parse-serialize_request, try_parse-serialize_successful_response,
  try_parse-serialize_error_response, try_parse-serialize_notification,
}
use cpp_msgpack_rpc.Methods.MethodException.{Outcome, method_exception, rpc_thrown}
use cpp_msgpack_rpc.Methods.FunctionalMethod.{
  successful_response, call, call_void, catch_method_exception, invoke_with_tuple,
}
use cpp_msgpack_rpc.Methods.MethodProcessor.{
  Method, MethodDict, functional_method, process_call, answer_exceptions, get, find,
}
use cpp_msgpack_rpc.Methods.MethodProcessor.Answers.{
  AllRespond, no_method, one_more, functional_method-Responds, response_id, IsAnswered,
  process_call-IsAnswered, call_void-call,
}
use cpp_msgpack_rpc.Clients.CallFuture.{set_result}
use cpp_msgpack_rpc.Clients.CallList
use cpp_msgpack_rpc.Clients.CallList.{CallList}
use cpp_msgpack_rpc.Clients.ReceivedMessageProcessor.{process_message}
use cpp_msgpack_rpc.RemoteCall.{
  serve, read_response, response_result, request_of, serve-serialize_request,
}
use cpp_msgpack_rpc.Tests.Toy.{toy, toy_allocator, number}
use cpp_msgpack_rpc.Tests.Laws.{toy-IsMsgpack, toy_allocator-AllocatorWorks}

small : toy_allocator.header_size < initial_memory_size
small = omega arith

-- A capacity of 10 for a size of 35 is doubled twice.
grow-Grown_example : Grown 10 35 (grow 2 10 35)
grow-Grown_example = grow-Grown 2 10 35 (omega arith) (omega arith) (omega arith) (omega arith)

new_buffer-write_all_example :
    Wrote toy_allocator []
      (7 ∷ 8 ∷ 9 ∷ [])
      (new_buffer toy_allocator >>= λ h. write_all toy_allocator h ((7 ∷ []) ∷ (8 ∷ 9 ∷ []) ∷ []))
new_buffer-write_all_example =
    new_buffer-write_all toy_allocator small toy_allocator-AllocatorWorks
      ((7 ∷ []) ∷ (8 ∷ 9 ∷ []) ∷ []) (omega arith)

-- The objects of the format for the numbers 5 and 6.
abbrev five : List ℕ
five = 1 ∷ 5 ∷ []

abbrev six : List ℕ
six = 1 ∷ 6 ∷ []

try_parse-serialize_request_example :
    Survives toy
      (serialize_request toy toy_allocator "succ" 3 (five ∷ []))
      (a_request (request_of toy toy_allocator "succ" 3 (five ∷ [])))
try_parse-serialize_request_example =
    try_parse-serialize_request toy toy-IsMsgpack toy_allocator small toy_allocator-AllocatorWorks
      "succ" 3 (five ∷ []) (omega arith) (omega arith)

try_parse-serialize_successful_response_example :
    Survives toy
      (serialize_successful_response toy toy_allocator 3 six)
      (a_response (record { id = 3; result = create_result six }))
try_parse-serialize_successful_response_example =
    try_parse-serialize_successful_response toy toy-IsMsgpack toy_allocator small
      toy_allocator-AllocatorWorks 3 six (omega arith) (omega arith)

-- An error, and the nil that is read as a success.
try_parse-serialize_error_response_example :
    Survives toy
      (serialize_error_response toy toy_allocator 3 [])
      (a_response (record { id = 3; result = create_result [] }))
try_parse-serialize_error_response_example =
    try_parse-serialize_error_response toy toy-IsMsgpack toy_allocator small
      toy_allocator-AllocatorWorks 3 [] (omega arith) (omega arith)

try_parse-serialize_notification_example :
    Survives toy (serialize_notification toy toy_allocator "log" (five ∷ [])) (
      a_notification (record {
        method_name = "log";
        parameters = record { object = 3 ∷ 1 ∷ 0 ∷ 2 ∷ 1 ∷ 5 ∷ [] };
      }))
try_parse-serialize_notification_example =
    try_parse-serialize_notification toy toy-IsMsgpack toy_allocator small
      toy_allocator-AllocatorWorks "log" (five ∷ []) (omega arith)

-- A server whose only method takes one number and returns the next one; 9 is refused.
abbrev only_number : List (List ℕ) → Option ℕ
only_number (x ∷ []) = number x
only_number _ = none

abbrev next_number : ℕ → Outcome (List ℕ) (List ℕ)
next_number n = if n == 9 then err (method_exception six) else ok (1 ∷ (n + 1) ∷ [])

abbrev succ_method : Method (List ℕ)
succ_method = functional_method toy "succ" 1 only_number next_number

abbrev methods : MethodDict (List ℕ)
methods = succ_method ∷ []

methods-AllRespond : AllRespond toy methods
methods-AllRespond =
    one_more succ_method [] (functional_method-Responds toy "succ" 1 only_number next_number)
      no_method

process_call-IsAnswered_example :
    IsAnswered 3 (process_call toy methods (request_of toy toy_allocator "pred" 3 []))
process_call-IsAnswered_example =
    process_call-IsAnswered toy methods (request_of toy toy_allocator "pred" 3 [])
      methods-AllRespond

called_succ :
    process_call toy methods (request_of toy toy_allocator "succ" 3 (five ∷ []))
    ≡ ok (successful_response 3 six)
unfolding process_call functional_method call answer_exceptions rpc_thrown get find
    catch_method_exception parameters_as invoke_with_tuple
called_succ = refl

serve-serialize_request_example :
    (q : Header) × (reply : List ℕ) × (serialize_request toy toy_allocator "succ" 3 (five ∷ [])
      ≡ ok q)
    × (serve toy toy_allocator methods (bytes_of q) ≡ some reply)
    × (response_id (successful_response 3 six) ≡ 3)
    × ((n : ℕ) (rest : List ℕ)
        → try_parse toy (consumed (new_parser n) (reply ++ rest)) ≡ (
          record { read_buffer_size = n; pending = rest },
          ok (some (read_response toy toy_allocator (successful_response 3 six))),
        ))
    × ((l : CallList (List ℕ)) (k : ℕ)
        → CallList.find 3 l.list ≡ some k
        → (process_message l (read_response toy toy_allocator (successful_response 3 six))).futures
            k
          ≡ set_result
              (l.futures k)
              (response_result toy toy_allocator (successful_response 3 six)))
serve-serialize_request_example =
    serve-serialize_request toy toy_allocator toy-IsMsgpack small toy_allocator-AllocatorWorks
      methods "succ" 3 (five ∷ []) (successful_response 3 six) methods-AllRespond called_succ
      (omega arith) (omega arith) (omega arith)

abbrev refuse : ℕ → Outcome (List ℕ) (Unit {0})
refuse n = if n == 9 then err (method_exception six) else ok _

call_void-call_example :
    answer_exceptions toy 3
      (call_void toy 1 only_number refuse (request_of toy toy_allocator "f" 3 (five ∷ [])))
    ≡ answer_exceptions toy 3 (
        call toy 1 only_number
          (λ t. refuse t >>= λ u. ok [])
          (request_of toy toy_allocator "f" 3 (five ∷ [])))
call_void-call_example =
    call_void-call toy 1 only_number refuse (request_of toy toy_allocator "f" 3 (five ∷ []))

-- A message with a block, and one that has been moved from and is assigned to.
abbrev store : Store
store = record {
  messages = some 0 ∷ none ∷ [];
  counts = at (λ b. 0) 0 1;
  is_freed = λ b. false;
  num_blocks = 1;
}

store-IsCounted : IsCounted store
store-IsCounted = record {
  counted = λ b. ground arith;
  fresh = λ b h. ground arith;
  made = λ b h. ground arith;
}

store-AreFew : AreFew store
store-AreFew = λ b. ground arith

step-IsCounted_example : (t : Store) × (step store (assigns 1 0) ≡ some t) × IsCounted t
step-IsCounted_example =
    step-IsCounted store (assigns 1 0) store-AreFew store-IsCounted (none, 0, refl, refl)
