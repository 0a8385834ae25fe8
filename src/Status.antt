-- ===== src/Status.antt =====
-- common/status.cpp, common/status_code.cpp: what went wrong, as a code with a message.
use cpp_msgpack_rpc.Common.{◌≡◌, refl, ◌≢◌, Option, none, some, Result, ok, err, String}

pub data StatusCode : Type 0 where
  success invalid_argument invalid_message type_error precondition_not_met : StatusCode
  operation_aborted operation_failure host_unresolved connection_failure timeout : StatusCode
  server_error unexpected_error : StatusCode

unfoldable pub format_status_code : StatusCode → String
format_status_code success = "SUCCESS"
format_status_code invalid_argument = "INVALID_ARGUMENT"
format_status_code invalid_message = "INVALID_MESSAGE"
format_status_code type_error = "TYPE_ERROR"
format_status_code precondition_not_met = "PRECONDITION_NOT_MET"
format_status_code operation_aborted = "OPERATION_ABORTED"
format_status_code operation_failure = "OPERATION_FAILURE"
format_status_code host_unresolved = "HOST_UNRESOLVED"
format_status_code connection_failure = "CONNECTION_FAILURE"
format_status_code timeout = "TIMEOUT"
format_status_code server_error = "SERVER_ERROR"
format_status_code unexpected_error = "UNEXPECTED_ERROR"

-- `Status::Data`.
pub record Data : Type 0 where
  pub code : StatusCode
  pub message : String

-- The shared pointer to the data, `none` for null.
pub record Status : Type 0 where
  pub content : Option Data

-- `Status::Data::create`: no data for a success.
abbrev pub create_data : StatusCode → String → Option Data
create_data success message = none
create_data code message = some (record { code = code; message = message })

-- `Status()` and `Status(code, message)`.
abbrev pub no_error : Status
no_error = record { content = none }

abbrev pub status : StatusCode → String → Status
status code message = record { content = create_data code message }

abbrev code_of : Option Data → StatusCode
code_of none = success
code_of (some d) = d.code

abbrev message_of : Option Data → String
message_of none = ""
message_of (some d) = d.message

-- `Status::code` and `Status::message`.
abbrev pub code : Status → StatusCode
code s = code_of s.content

abbrev pub message : Status → String
message s = message_of s.content

-- A status returns the code that it was made with.
pub code-status : (c : StatusCode) (m : String) → code (status c m) ≡ c
code-status success m = refl
code-status _ m = refl

-- And the message, unless it is a success, which has none.
pub message-status : (c : StatusCode) (m : String) → c ≢ success → message (status c m) ≡ m
message-status success m h = absurd (h refl)
message-status _ m h = refl

-- What the code throws: its own exception, or that of asio with its text.
pub data Failure : Type 0 where
  msgpack_rpc_exception : Status → Failure
  system_error : String → Failure

abbrev pub failing : {A : Type 0} → Result Status A → Result Failure A
failing (ok a) = ok a
failing (err s) = err (msgpack_rpc_exception s)
