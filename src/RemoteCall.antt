-- ===== src/RemoteCall.antt =====
-- A request on its way to the server and back: message_serializer.h, message_parser.cpp,
-- server_connection.h and method_processor_impl.h together.
pub mod Typed
use cpp_msgpack_rpc.Common.{
  ℕ, ◌^◌, ◌≤◌, ◌<◌, ◌≡◌, refl, ap, sym, ◌∙◌, Option, none, some, String, List, [], ◌++◌, length,
  append-nil, if◌then◌else◌, Result, ok, err,
}
use cpp_msgpack_rpc.Status.{Status}
use cpp_msgpack_rpc.Binary.Header.{Allocator, Header, MemoryError, initial_memory_size}
use cpp_msgpack_rpc.Binary.Buffer.{bytes_of}
use cpp_msgpack_rpc.Binary.Buffer.Append.{AllocatorWorks}
use cpp_msgpack_rpc.Messages.Msgpack.{Msgpack, IsMsgpack}
use cpp_msgpack_rpc.Messages.Parsed.{
  ParsedRequest, ParsedMessage, CallResult, a_request, a_response, create_result, create_error,
}
use cpp_msgpack_rpc.Messages.Serialize.{
  serialize_request, serialize_successful_response, serialize_error_response,
}
use cpp_msgpack_rpc.Messages.MessageParser.{MessageParser, new_parser, consumed, try_parse}
use cpp_msgpack_rpc.Messages.RoundTrip.{
  message_bytes, request_root, response_root, try_parse-serialize_request,
  try_parse-serialize_successful_response, try_parse-serialize_error_response,
}
use cpp_msgpack_rpc.Clients.CallFuture.{set_result}
use cpp_msgpack_rpc.Clients.CallList.{CallList, find}
use cpp_msgpack_rpc.Clients.ReceivedMessageProcessor.{process_message, futures-process_message}
use cpp_msgpack_rpc.Methods.MethodException.{Outcome}
use cpp_msgpack_rpc.Methods.FunctionalMethod.{Response, successful_response, error_response}
use cpp_msgpack_rpc.Methods.MethodProcessor.{MethodDict, process_call}
use cpp_msgpack_rpc.Methods.MethodProcessor.Answers.{
  AllRespond, process_call-IsAnswered, response_id, IsAnswered,
}
use cpp_msgpack_rpc.Servers.ServerConnection.{
  Received, invokes_request, invokes_notification, closes, on_received,
}

module _ (M : Msgpack) (a : Allocator) where
  open M use {Object, is_nil, nil}

  pub serialize_response : Response Object → Result MemoryError Header
  serialize_response (successful_response id result) = serialize_successful_response M a id result
  serialize_response (error_response id error) = serialize_error_response M a id error

  -- The bytes that the server sends for a call, if it sends any.
  pub response_bytes : Outcome Object (Response Object) → Option (List ℕ)
  response_bytes (err x) = none
  response_bytes (ok r) = elim (serialize_response r) [ ok h ↦ some (bytes_of h) | err x ↦ none ]

  pub process_received : MethodDict Object → Received Object → Option (List ℕ)
  unfolding response_bytes
  process_received d (invokes_request r) = response_bytes (process_call M d r)
  process_received d (invokes_notification n) = none
  process_received d closes = none

  pub process_parsed :
      MethodDict Object
      → MessageParser × Result Status (Option (ParsedMessage Object))
      → Option (List ℕ)
  unfolding process_received
  process_parsed d (p, ok (some m)) = process_received d (on_received m)
  process_parsed d (p, ok none) = none
  process_parsed d (p, err s) = none

  -- What a server with these methods sends when it has received the bytes.
  pub serve : MethodDict Object → List ℕ → Option (List ℕ)
  unfolding process_parsed
  serve d received = process_parsed d (try_parse M (consumed (new_parser 0) received))

  -- The result that a response gives to a call.
  pub response_result : Response Object → CallResult Object
  response_result (successful_response id result) = create_result result
  response_result (error_response id error) =
      if is_nil error then create_result nil else create_error error

  -- What the client reads a response as.
  pub read_response : Response Object → ParsedMessage Object
  read_response (successful_response id result) =
      a_response (record { id = id; result = create_result result })
  read_response (error_response id error) =
      a_response (record {
        id = id;
        result = if is_nil error then create_result nil else create_error error;
      })

  abbrev pub response_size : Response Object → ℕ
  response_size (successful_response id result) =
      length (message_bytes M (response_root M id nil result))
  response_size (error_response id error) = length (message_bytes M (response_root M id error nil))

  abbrev pub request_of : String → ℕ → List Object → ParsedRequest Object
  request_of name id parameters = record {
    id = id;
    method_name = name;
    parameters = record { object = M.of_array parameters };
  }

  module _ (laws : IsMsgpack M) (small : a.header_size < initial_memory_size)
      (works : AllocatorWorks a) where
    read-serialize_response :
        (r : Response Object)
        → response_id r < 2 ^ 32
        → response_size r ≤ 2 ^ 62
        → (h : Header) × (serialize_response r ≡ ok h)
          × ((n : ℕ) (rest : List ℕ)
              → try_parse M (consumed (new_parser n) (bytes_of h ++ rest))
                ≡ (record { read_buffer_size = n; pending = rest }, ok (some (read_response r))))
    unfolding serialize_response read_response
    read-serialize_response (successful_response id result) i top =
        try_parse-serialize_successful_response M laws a small works id result i top
    read-serialize_response (error_response id error) i top =
        try_parse-serialize_error_response M laws a small works id error i top

    answered :
        {id : ℕ} {o : Outcome Object (Response Object)} {x : Response Object}
        → IsAnswered id o
        → o ≡ ok x
        → response_id x ≡ id
    answered {id = i} {o = ok y} v e = let w : response_id y ≡ i = v in cc
    answered {o = err y} v e = cc

    served :
        (d : MethodDict Object) (bs : List ℕ) (p : MessageParser) (r : ParsedRequest Object)
        (x : Response Object) (h : Header)
        → try_parse M (consumed (new_parser 0) (bs ++ [])) ≡ (p, ok (some (a_request r)))
        → process_call M d r ≡ ok x
        → serialize_response x ≡ ok h
        → serve d bs ≡ some (bytes_of h)
    unfolding serve process_parsed process_received response_bytes on_received
    served d bs p r x h parsed e f =
        let whole : try_parse M (consumed (new_parser 0) bs) ≡ (p, ok (some (a_request r))) =
          ap (λ (l : List ℕ). try_parse M (consumed (new_parser 0) l)) (sym (append-nil bs))
          ∙ parsed in
        rw (whole, process_parsed, e, response_bytes, f) refl

    resolved :
        (x : Response Object) (l : CallList Object) (k : ℕ)
        → find (response_id x) l.list ≡ some k
        → (process_message l (read_response x)).futures k
          ≡ set_result (l.futures k) (response_result x)
    unfolding read_response response_result
    resolved (successful_response id result) l k e = futures-process_message l _ k e
    resolved (error_response id error) l k e = futures-process_message l _ k e

    -- A request that is serialized, received by a server and answered by its processor comes back
    -- to the client as the response that the processor gave, with the id of the request (an error
    -- that is nil comes back as a success with nil). The methods respond to the id of their
    -- request, the id is below 2^32, both messages have at most 2^62 bytes, the library keeps its
    -- laws and the allocator meets every request.
    pub serve-serialize_request :
        (d : MethodDict Object) (name : String) (id : ℕ) (parameters : List Object)
        (x : Response Object)
        → AllRespond M d
        → process_call M d (request_of name id parameters) ≡ ok x
        → id < 2 ^ 32
        → length (message_bytes M (request_root M name id parameters)) ≤ 2 ^ 62
        → response_size x ≤ 2 ^ 62
        → (q : Header) × (reply : List ℕ) × (serialize_request M a name id parameters ≡ ok q)
          × (serve d (bytes_of q) ≡ some reply)
          × (response_id x ≡ id)
          × ((n : ℕ) (rest : List ℕ)
              → try_parse M (consumed (new_parser n) (reply ++ rest))
                ≡ (record { read_buffer_size = n; pending = rest }, ok (some (read_response x))))
          × ((l : CallList Object) (k : ℕ)
              → find id l.list ≡ some k
              → (process_message l (read_response x)).futures k
                ≡ set_result (l.futures k) (response_result x))
    serve-serialize_request d name id parameters x v e i top xtop =
        let (q, eq, parsed) =
          try_parse-serialize_request M laws a small works name id parameters i top in
        let same : response_id x ≡ id =
          answered (process_call-IsAnswered M d (request_of name id parameters) v) e in
        let (h, eh, back) = read-serialize_response x (rw same i) xtop in
        (
          q,
          bytes_of h,
          eq,
          served d (bytes_of q) _ (request_of name id parameters) x h (parsed 0 []) e eh,
          same,
          back,
          λ l k found. resolved x l k (rw same found),
        )
