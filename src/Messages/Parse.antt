-- ===== src/Messages/Parse.antt =====
-- messages/impl/parse_message_from_object.h.
use cpp_msgpack_rpc.Common.{
  ℕ, not, Option, none, some, String, List, [], ◌∷◌, length, ◌==◌, if◌then◌else◌, Result, ok, err,
  ◌>>=◌,
}
use cpp_msgpack_rpc.Status.{Status, status, invalid_message, type_error}
use cpp_msgpack_rpc.Messages.Msgpack.{Msgpack}
use cpp_msgpack_rpc.Messages.Parsed.{
  MessageType, request, response, notification, ParsedParameters, ParsedRequest, ParsedResponse,
  ParsedNotification, ParsedMessage, a_request, a_response, a_notification, create_result,
  create_error,
}

abbrev invalid_size : {T : Type 0} → Result Status T
invalid_size = err (status invalid_message "Invalid size of the array of a message.")

message_type_of : Option ℕ → Result Status MessageType
message_type_of none = err (status invalid_message "Invalid message type in a message.")
message_type_of (some v) =
    if v == 0
    then ok request
    else if v == 1
    then ok response
    else if v == 2
    then ok notification
    else err (status invalid_message "Invalid message type in a message.")

module _ (M : Msgpack) where
  open M use {Object, elements, as_uint64, as_uint32, as_string, is_nil}

  unfoldable pub parse_message_type_from_object : Object → Result Status MessageType
  unfolding message_type_of
  parse_message_type_from_object o = message_type_of (as_uint64 o)

  unfoldable pub parse_message_id_from_object : Object → Result Status ℕ
  parse_message_id_from_object o = elim (as_uint32 o) [
    | none ↦ err (status invalid_message "Invalid message ID in a message.")
    | some id ↦ ok id
  ]

  unfoldable pub parse_method_name_from_object : Object → Result Status String
  parse_method_name_from_object o = elim (as_string o) [
    | none ↦ err (status invalid_message "Invalid method name in a message.")
    | some name ↦ ok name
  ]

  -- The constructor of `ParsedParameters`.
  unfoldable pub parsed_parameters : Object → Result Status (ParsedParameters Object)
  parsed_parameters o = elim (elements o) [
    | none ↦ err (status invalid_message "Invalid type of parameters.")
    | some _ ↦ ok (record { object = o })
  ]

  -- `ParsedParameters::as`; `convert` is the library's conversion of an array to a tuple.
  unfoldable pub parameters_as :
      {T : Type 0} → ℕ → (List Object → Option T) → ParsedParameters Object → Result Status T
  parameters_as n convert p = elim (elements p.object) [
    | none ↦ err (status type_error "Invalid types of parameters.")
    | some xs ↦
        if length xs == n
        then elim (convert xs) [
          | none ↦ err (status type_error "Invalid types of parameters.")
          | some t ↦ ok t
        ]
        else err (status invalid_message "Invalid number of parameters.")
  ]

  unfoldable pub parse_request_from_object : List Object → Result Status (ParsedRequest Object)
  parse_request_from_object (_ ∷ id ∷ name ∷ parameters ∷ []) = do
    message_id ← parse_message_id_from_object id
    method_name ← parse_method_name_from_object name
    p ← parsed_parameters parameters
    ok (record { id = message_id; method_name = method_name; parameters = p })
  parse_request_from_object _ = invalid_size

  unfoldable pub parse_response_from_object : List Object → Result Status (ParsedResponse Object)
  parse_response_from_object (_ ∷ id ∷ error ∷ result ∷ []) = do
    message_id ← parse_message_id_from_object id
    ok (record {
      id = message_id;
      result = if not (is_nil error) then create_error error else create_result result;
    })
  parse_response_from_object _ = invalid_size

  unfoldable pub parse_notification_from_object :
      List Object → Result Status (ParsedNotification Object)
  parse_notification_from_object (_ ∷ name ∷ parameters ∷ []) = do
    method_name ← parse_method_name_from_object name
    p ← parsed_parameters parameters
    ok (record { method_name = method_name; parameters = p })
  parse_notification_from_object _ = invalid_size

  parse_by_type : MessageType → List Object → Result Status (ParsedMessage Object)
  parse_by_type request xs = parse_request_from_object xs >>= λ m. ok (a_request m)
  parse_by_type response xs = parse_response_from_object xs >>= λ m. ok (a_response m)
  parse_by_type notification xs = parse_notification_from_object xs >>= λ m. ok (a_notification m)

  -- The elements of the root array, of which there must be three at least.
  parse_root : List Object → Result Status (ParsedMessage Object)
  parse_root (first ∷ second ∷ third ∷ rest) = do
    type ← parse_message_type_from_object first
    parse_by_type type (first ∷ second ∷ third ∷ rest)
  parse_root _ = invalid_size

  unfoldable pub parse_message_from_object : Object → Result Status (ParsedMessage Object)
  unfolding parse_root parse_by_type
  parse_message_from_object o = elim (elements o) [
    | none ↦ err (status invalid_message "Invalid type of a message.")
    | some xs ↦ parse_root xs
  ]
