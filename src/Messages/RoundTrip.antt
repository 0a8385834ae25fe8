-- ===== src/Messages/RoundTrip.antt =====
-- message_serializer.h with message_parser.cpp: messages that are serialized and parsed again.
use cpp_msgpack_rpc.Common.{
  ℕ, ◌^◌, ◌≤◌, ◌<◌, ◌≡◌, refl, ap, ◌∙◌, some, String, List, [], ◌∷◌, ◌++◌, map, length, concat,
  concat-append, if◌then◌else◌, Result, ok, ◌>>=◌, >>=-assoc, arith,
}
use cpp_msgpack_rpc.Binary.Header.{Allocator, Header, MemoryError, initial_memory_size}
use cpp_msgpack_rpc.Binary.Buffer.{new_buffer, write_all, release, bytes_of}
use cpp_msgpack_rpc.Binary.Buffer.Append.{AllocatorWorks, new_buffer-write_all}
use cpp_msgpack_rpc.Messages.Msgpack.{Msgpack, IsMsgpack, bytes}
use cpp_msgpack_rpc.Messages.Parsed.{
  ParsedMessage, a_request, a_response, a_notification, create_result, create_error,
}
use cpp_msgpack_rpc.Messages.Parse.{
  parse_message_from_object, parse_message_type_from_object, parse_message_id_from_object,
  parse_method_name_from_object, parsed_parameters, parse_request_from_object,
  parse_response_from_object, parse_notification_from_object,
}
use cpp_msgpack_rpc.Messages.Serialize.{
  fill, pack_all, serialize_request, serialize_successful_response, serialize_error_response,
  serialize_notification,
}
use cpp_msgpack_rpc.Messages.MessageParser.{new_parser, consumed, try_parse}

concat-pack_all :
    (M : Msgpack) (xs : List M.Object) → concat (pack_all M xs) ≡ concat (map (bytes M) xs)
concat-pack_all M [] = refl
concat-pack_all M (x ∷ xs) = rw (concat-append (M.pack x) (pack_all M xs), concat-pack_all M xs)

-- The bytes of a message whose root array holds the objects.
abbrev pub message_bytes : (M : Msgpack) → List M.Object → List ℕ
message_bytes M xs = concat (M.pack_array (length xs)) ++ concat (map (bytes M) xs)

-- The root arrays of the messages.
abbrev pub request_root : (M : Msgpack) → String → ℕ → List M.Object → List M.Object
request_root M name id parameters =
    M.of_uint 0 ∷ M.of_uint id ∷ M.of_string name ∷ M.of_array parameters ∷ []

abbrev pub response_root : (M : Msgpack) → ℕ → M.Object → M.Object → List M.Object
response_root M id error result = M.of_uint 1 ∷ M.of_uint id ∷ error ∷ result ∷ []

abbrev pub notification_root : (M : Msgpack) → String → List M.Object → List M.Object
notification_root M name parameters = M.of_uint 2 ∷ M.of_string name ∷ M.of_array parameters ∷ []

-- The message is made, and parsed from the stream that begins with its bytes.
abbrev pub Survives : (M : Msgpack) → Result MemoryError Header → ParsedMessage M.Object → Type 0
Survives M r m =
    (h : Header) × (r ≡ ok h)
    × ((n : ℕ) (rest : List ℕ)
        → try_parse M (consumed (new_parser n) (bytes_of h ++ rest))
          ≡ (record { read_buffer_size = n; pending = rest }, ok (some m)))

module _ (M : Msgpack) (laws : IsMsgpack M) (a : Allocator)
    (small : a.header_size < initial_memory_size) (works : AllocatorWorks a) where
  fill-message_bytes :
      (xs : List M.Object)
      → length (message_bytes M xs) ≤ 2 ^ 62
      → (h : Header) × (fill a (M.pack_array (length xs) ++ pack_all M xs) ≡ ok h)
        × (bytes_of h ≡ message_bytes M xs)
  unfolding fill release
  fill-message_bytes xs top =
      let same : concat (M.pack_array (length xs) ++ pack_all M xs) ≡ message_bytes M xs =
        concat-append (M.pack_array (length xs)) (pack_all M xs)
        ∙ ap (λ (l : List ℕ). concat (M.pack_array (length xs)) ++ l) (concat-pack_all M xs) in
      let (g, e, v, held, sz) =
        new_buffer-write_all a small works (M.pack_array (length xs) ++ pack_all M xs)
          (rw same top) in
      (
        release g,
        rw
            (>>=-assoc (new_buffer a)
              (λ h. write_all a h (M.pack_array (length xs) ++ pack_all M xs))
              (λ f. ok (release f)))
            (rw e refl),
        held ∙ same,
      )

  -- Parsing the bytes of a filled buffer gives what the root array is parsed to.
  try_parse-message_bytes :
      (xs : List M.Object) (n : ℕ) (rest : List ℕ)
      → try_parse M (consumed (new_parser n) (message_bytes M xs ++ rest)) ≡ (
        record { read_buffer_size = n; pending = rest },
        parse_message_from_object M (M.of_array xs) >>= λ m. ok (some m),
      )
  unfolding try_parse
  try_parse-message_bytes xs n rest = rw (laws.unpack-array xs rest)

  survives :
      (xs : List M.Object) (m : ParsedMessage M.Object)
      → length (message_bytes M xs) ≤ 2 ^ 62
      → parse_message_from_object M (M.of_array xs) ≡ ok m
      → Survives M (fill a (M.pack_array (length xs) ++ pack_all M xs)) m
  survives xs m top parsed =
      let (h, e, held) = fill-message_bytes xs top in
      (h, e, λ n rest. rw (held, try_parse-message_bytes xs n rest, parsed))

  -- What a request is serialized to is parsed as a request with its ID, name and parameters,
  -- whatever bytes follow, if the ID is below 2^32, the message has at most 2^62 bytes, the library
  -- keeps its laws and the allocator meets every request.
  pub try_parse-serialize_request :
      (name : String) (id : ℕ) (parameters : List M.Object)
      → id < 2 ^ 32
      → length (message_bytes M (request_root M name id parameters)) ≤ 2 ^ 62
      → Survives M (serialize_request M a name id parameters) (
          a_request (record {
            id = id;
            method_name = name;
            parameters = record { object = M.of_array parameters };
          }))
  unfolding serialize_request parse_message_from_object parse_request_from_object
      parse_message_type_from_object parse_message_id_from_object parse_method_name_from_object
      parsed_parameters
  try_parse-serialize_request name id parameters small_id top =
      survives (request_root M name id parameters) _ top (
        ground (
          arith,
          laws.elements-of_array (request_root M name id parameters),
          laws.as_uint64-of_uint 0,
          laws.as_uint32-of_uint id,
          laws.as_string-of_string name,
          laws.elements-of_array parameters,
        ))

  -- What a successful response is serialized to is parsed as a success with the same ID and object,
  -- whatever bytes follow, if the ID is below 2^32, the message has at most 2^62 bytes, the library
  -- keeps its laws and the allocator meets every request.
  pub try_parse-serialize_successful_response :
      (id : ℕ) (result : M.Object)
      → id < 2 ^ 32
      → length (message_bytes M (response_root M id M.nil result)) ≤ 2 ^ 62
      → Survives M
          (serialize_successful_response M a id result)
          (a_response (record { id = id; result = create_result result }))
  unfolding serialize_successful_response parse_message_from_object parse_response_from_object
      parse_message_type_from_object parse_message_id_from_object
  try_parse-serialize_successful_response id result small_id top =
      survives (response_root M id M.nil result) _ top (
        ground (
          arith,
          laws.elements-of_array (response_root M id M.nil result),
          laws.as_uint64-of_uint 1,
          laws.as_uint32-of_uint id,
          laws.is_nil-nil,
        ))

  -- What an error response is serialized to is parsed as an error with the same ID and object, or,
  -- when that object is nil, as a success with nil, whatever bytes follow, if the ID is below 2^32,
  -- the message has at most 2^62 bytes, the library keeps its laws and the allocator meets every
  -- request.
  pub try_parse-serialize_error_response :
      (id : ℕ) (error : M.Object)
      → id < 2 ^ 32
      → length (message_bytes M (response_root M id error M.nil)) ≤ 2 ^ 62
      → Survives M (serialize_error_response M a id error) (
          a_response (record {
            id = id;
            result = if M.is_nil error then create_result M.nil else create_error error;
          }))
  unfolding serialize_error_response parse_message_from_object parse_response_from_object
      parse_message_type_from_object parse_message_id_from_object
  try_parse-serialize_error_response id error small_id top =
      survives (response_root M id error M.nil) _ top (
        ground (
          arith,
          laws.elements-of_array (response_root M id error M.nil),
          laws.as_uint64-of_uint 1,
          laws.as_uint32-of_uint id,
        ))

  -- What a notification is serialized to is parsed as a notification with its name and parameters,
  -- whatever bytes follow, if the message has at most 2^62 bytes, the library keeps its laws and
  -- the allocator meets every request.
  pub try_parse-serialize_notification :
      (name : String) (parameters : List M.Object)
      → length (message_bytes M (notification_root M name parameters)) ≤ 2 ^ 62
      → Survives M (serialize_notification M a name parameters) (
          a_notification
            (record { method_name = name; parameters = record { object = M.of_array parameters } }))
  unfolding serialize_notification parse_message_from_object parse_notification_from_object
      parse_message_type_from_object parse_method_name_from_object parsed_parameters
  try_parse-serialize_notification name parameters top =
      survives (notification_root M name parameters) _ top (
        ground (
          arith,
          laws.elements-of_array (notification_root M name parameters),
          laws.as_uint64-of_uint 2,
          laws.as_string-of_string name,
          laws.elements-of_array parameters,
        ))
