-- ===== src/Config/Settings.antt =====
-- config/*_config.h, config/*_config.cpp: the configurations with their defaults and their setters.
-- A duration is a number of nanoseconds.
use cpp_msgpack_rpc.Common.{
  ℕ, zero, suc, ℤ, pos, negsuc, Bool, true, false, List, [], ◌∷◌, ◌++◌, if◌then◌else◌, Result, ok,
  err, ◌>>=◌, String,
}
use cpp_msgpack_rpc.Status.{Status, status, invalid_argument}
use cpp_msgpack_rpc.Addresses.Uri
use cpp_msgpack_rpc.Addresses.Uri.{Uri, Library}

pub data LogLevel : Type 0 where
  trace debug info warn error critical : LogLevel

pub record LoggingConfig : Type 0 where
  pub file_path : String
  pub max_file_size : ℕ
  pub max_files : ℕ
  pub output_log_level : LogLevel

pub record MessageParserConfig : Type 0 where
  pub read_buffer_size : ℕ

pub record ExecutorConfig : Type 0 where
  pub num_transport_threads : ℕ
  pub num_callback_threads : ℕ

pub record ReconnectionConfig : Type 0 where
  pub initial_waiting_time : ℤ
  pub max_waiting_time : ℤ
  pub max_jitter_waiting_time : ℤ

pub record ClientConfig : Type 0 where
  pub uris : List Uri
  pub call_timeout : ℤ
  pub message_parser : MessageParserConfig
  pub executor : ExecutorConfig
  pub reconnection : ReconnectionConfig

pub record ServerConfig : Type 0 where
  pub uris : List Uri
  pub message_parser : MessageParserConfig
  pub executor : ExecutorConfig

-- `value <= nanoseconds(0)` and `value < nanoseconds(0)`.
abbrev pub is_positive : ℤ → Bool
is_positive (pos zero) = false
is_positive (pos (suc n)) = true
is_positive (negsuc n) = false

abbrev pub is_negative : ℤ → Bool
is_negative (pos n) = false
is_negative (negsuc n) = true

-- A setter that throws, or sets.
abbrev pub checked : {C : Type 0} → Bool → String → C → Result Status C
checked true text c = ok c
checked false text c = err (status invalid_argument text)

abbrev pub is_some_number : ℕ → Bool
is_some_number zero = false
is_some_number (suc n) = true

unfoldable pub default_logging : LoggingConfig
default_logging = record {
  file_path = "";
  max_file_size = 1048576;
  max_files = 5;
  output_log_level = info;
}

unfoldable pub set_file_path : String → LoggingConfig → LoggingConfig
set_file_path value c = record c { file_path = value }

unfoldable pub set_max_file_size : ℕ → LoggingConfig → Result Status LoggingConfig
set_max_file_size value c =
    checked (is_some_number value) "Maximum size of a file must be greater than 0."
      (record c { max_file_size = value })

unfoldable pub set_max_files : ℕ → LoggingConfig → Result Status LoggingConfig
set_max_files value c =
    checked (is_some_number value) "Maximum number of files must be greater than 0."
      (record c { max_files = value })

-- No value of the enumeration is refused.
unfoldable pub set_output_log_level : LogLevel → LoggingConfig → LoggingConfig
set_output_log_level value c = record c { output_log_level = value }

-- With MSGPACK_UNPACKER_RESERVE_SIZE of the msgpack library.
unfoldable pub default_message_parser : ℕ → MessageParserConfig
default_message_parser reserve_size = record { read_buffer_size = reserve_size }

unfoldable pub set_read_buffer_size : ℕ → MessageParserConfig → Result Status MessageParserConfig
set_read_buffer_size value c =
    checked (is_some_number value) "Buffer size must be at least one."
      (record c { read_buffer_size = value })

unfoldable pub default_executor : ExecutorConfig
default_executor = record { num_transport_threads = 1; num_callback_threads = 1 }

unfoldable pub set_num_transport_threads : ℕ → ExecutorConfig → Result Status ExecutorConfig
set_num_transport_threads value c =
    checked (is_some_number value) "Invalid number of transport threads."
      (record c { num_transport_threads = value })

unfoldable pub set_num_callback_threads : ℕ → ExecutorConfig → Result Status ExecutorConfig
set_num_callback_threads value c =
    checked (is_some_number value) "Invalid number of callback threads."
      (record c { num_callback_threads = value })

unfoldable pub default_reconnection : ReconnectionConfig
default_reconnection = record {
  initial_waiting_time = pos 125000000;
  max_waiting_time = pos 32000000000;
  max_jitter_waiting_time = pos 125000000;
}

unfoldable pub set_initial_waiting_time : ℤ → ReconnectionConfig → Result Status ReconnectionConfig
set_initial_waiting_time value c =
    checked (is_positive value) "Waiting time must be larger than zero."
      (record c { initial_waiting_time = value })

unfoldable pub set_max_waiting_time : ℤ → ReconnectionConfig → Result Status ReconnectionConfig
set_max_waiting_time value c =
    checked (is_positive value) "Waiting time must be larger than zero."
      (record c { max_waiting_time = value })

unfoldable pub set_max_jitter_waiting_time :
    ℤ → ReconnectionConfig → Result Status ReconnectionConfig
set_max_jitter_waiting_time value c =
    if is_negative value
    then err (status invalid_argument "Jitter must be larger than or equal to zero.")
    else ok (record c { max_jitter_waiting_time = value })

unfoldable pub default_client : ℕ → ClientConfig
unfolding default_message_parser default_executor default_reconnection
default_client reserve_size = record {
  uris = [];
  call_timeout = pos 15000000000;
  message_parser = default_message_parser reserve_size;
  executor = default_executor;
  reconnection = default_reconnection;
}

unfoldable pub set_call_timeout : ℤ → ClientConfig → Result Status ClientConfig
set_call_timeout value c =
    checked (is_positive value) "Duration of timeout must be longer than zero."
      (record c { call_timeout = value })

-- ClientConfig::add_uri and ServerConfig::add_uri of a text.
unfoldable pub add_client_uri : Library → String → ClientConfig → Result Status ClientConfig
add_client_uri l text c = Uri.parse l text >>= λ u. ok (record c { uris = c.uris ++ u ∷ [] })

unfoldable pub default_server : ℕ → ServerConfig
unfolding default_message_parser default_executor
default_server reserve_size = record {
  uris = [];
  message_parser = default_message_parser reserve_size;
  executor = default_executor;
}

unfoldable pub add_server_uri : Library → String → ServerConfig → Result Status ServerConfig
add_server_uri l text c = Uri.parse l text >>= λ u. ok (record c { uris = c.uris ++ u ∷ [] })
