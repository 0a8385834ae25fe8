-- ===== src/Clients/ReceivedMessageProcessor.antt =====
-- received_message_processor.h: what a client does with a message that it has received.
use cpp_msgpack_rpc.Common.{ℕ, ◌≡◌, refl, some, ==_refl}
use cpp_msgpack_rpc.Messages.Parsed.{
  ParsedMessage, ParsedResponse, a_request, a_response, a_notification,
}
use cpp_msgpack_rpc.Clients.CallFuture.{set_result}
use cpp_msgpack_rpc.Clients.CallList.{CallList, find, handle}

module _ {Object : Type 0} where
  -- `operator()`: messages other than responses are only logged.
  unfoldable pub process_message : CallList Object → ParsedMessage Object → CallList Object
  process_message l (a_response r) = handle l r
  process_message l (a_request r) = l
  process_message l (a_notification n) = l

  -- A response sets the result of the future of the call with its ID.
  pub futures-process_message :
      (l : CallList Object) (r : ParsedResponse Object) (k : ℕ)
      → find r.id l.list ≡ some k
      → (process_message l (a_response r)).futures k ≡ set_result (l.futures k) r.result
  unfolding process_message handle
  futures-process_message l r k e = rw (e, ==_refl k) refl
