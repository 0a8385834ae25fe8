-- ===== src/Messages/Parsed.antt =====
-- The parsed messages: parsed_request.h, parsed_response.h, parsed_notification.h,
-- parsed_parameters.h, call_result.h, method_name.h, message_type.h. `Object` is the library's
-- object; the zone that keeps its memory alive has no part in the values.
use cpp_msgpack_rpc.Common.{
  ℕ, Bool, true, false, not, Option, none, some, String, if◌then◌else◌, Result, ok, err,
}
use cpp_msgpack_rpc.Status.{Status, status, type_error, precondition_not_met}

pub data MessageType : Type 0 where
  request response notification : MessageType

pub record ParsedParameters (Object : Type 0) : Type 0 where
  pub object : Object

pub record CallResult (Object : Type 0) : Type 0 where
  pub is_error : Bool
  pub object : Object

pub record ParsedRequest (Object : Type 0) : Type 0 where
  pub id : ℕ
  pub method_name : String
  pub parameters : ParsedParameters Object

pub record ParsedResponse (Object : Type 0) : Type 0 where
  pub id : ℕ
  pub result : CallResult Object

pub record ParsedNotification (Object : Type 0) : Type 0 where
  pub method_name : String
  pub parameters : ParsedParameters Object

pub data ParsedMessage (Object : Type 0) : Type 0 where
  a_request : ParsedRequest Object → ParsedMessage Object
  a_response : ParsedResponse Object → ParsedMessage Object
  a_notification : ParsedNotification Object → ParsedMessage Object

-- `as<T>`, with `none` for a `type_error`; `convert` is the library's conversion to T.
unfoldable pub convert_or : {T : Type 0} → Option T → String → Result Status T
convert_or none text = err (status type_error text)
convert_or (some t) text = ok t

module _ {Object : Type 0} where
  abbrev pub create_result : Object → CallResult Object
  create_result o = record { is_error = false; object = o }

  abbrev pub create_error : Object → CallResult Object
  create_error o = record { is_error = true; object = o }

  abbrev pub is_success : CallResult Object → Bool
  is_success r = not r.is_error

  pub error_as : {T : Type 0} → (Object → Option T) → CallResult Object → Result Status T
  error_as convert r =
      if r.is_error
      then convert_or (convert r.object) "Invalid type of the error."
      else err (status precondition_not_met "This result is not an error.")

  unfoldable pub result_as :
      {T : Type 0} → (Object → Option T) → CallResult Object → Result Status T
  result_as convert r =
      if r.is_error
      then err (status precondition_not_met "This result is an error.")
      else convert_or (convert r.object) "Invalid type of the result."
