-- ===== src/Config/Toml.antt =====
-- config/toml: the configurations in a TOML file. The TOML library is a parameter.
use Prim.Native.String.{◌++◌}
use text.Mathlib.Text.{◌==◌}
use cpp_msgpack_rpc.Common.{
  ℕ, ℤ, Option, none, some, List, [], ◌∷◌, if◌then◌else◌, Result, ok, err, ◌>>=◌, String,
}
use cpp_msgpack_rpc.Status.{Status, status, message, invalid_argument}
use cpp_msgpack_rpc.Addresses.Uri.{Library}
use cpp_msgpack_rpc.Config.Settings.{
  LogLevel, trace, debug, info, warn, error, critical, LoggingConfig, MessageParserConfig,
  ExecutorConfig, ReconnectionConfig, ClientConfig, ServerConfig, set_file_path, set_max_file_size,
  set_max_files, set_output_log_level, set_read_buffer_size, set_num_transport_threads,
  set_num_callback_threads, set_initial_waiting_time, set_max_waiting_time,
  set_max_jitter_waiting_time, set_call_timeout, add_client_uri, add_server_uri,
}

-- What the code uses of the TOML library: the readings of a node, a duration with the cast of its
-- seconds, the place of a node in a file as a text, and a node of a table by its path.
pub record Toml (Node : Type 0) : Type 0 where
  pub as_table : Node → Option (List (String × Node))
  pub as_array : Node → Option (List Node)
  pub as_string : Node → Option String
  pub string_value : Node → Option String
  pub size_value : Node → Option ℕ
  pub duration_value : Node → Option ℤ
  pub place : Node → String
  pub at_path : List (String × Node) → String → Option Node

abbrev pub ConfigMap : (C : Type 0) → Type 0
ConfigMap C = List (String × C)

module _ {C : Type 0} where
  unfoldable pub find : String → ConfigMap C → Option C
  find name [] = none
  find name ((k, c) ∷ m) = let rest = find name m in if k == name then some c else rest

  -- `try_emplace`, which does nothing for a name that is there.
  unfoldable pub try_emplace : ConfigMap C → String → C → ConfigMap C
  unfolding find
  try_emplace m name c = elim (find name m) [ some d ↦ m | none ↦ (name, c) ∷ m ]

pub record Configs : Type 0 where
  pub logging_configs : ConfigMap LoggingConfig
  pub client_configs : ConfigMap ClientConfig
  pub server_configs : ConfigMap ServerConfig

-- What has been read when a function returns or throws.
abbrev pub Reading : (A : Type 0) → Type 0
Reading A = A × Option Status

module _ {Node : Type 0} (t : Toml Node) where
  unfoldable pub throw_error : Node → String → Status
  throw_error node key =
      status invalid_argument ("Invalid value for " ++ (key ++ (". (at " ++ (t.place node ++ ")"))))

  unfoldable pub throw_error_with : Node → String → String → Status
  throw_error_with node key text =
      status invalid_argument
        ("Invalid value for " ++ (key ++ (": " ++ (text ++ (" (at " ++ (t.place node ++ ")"))))))

  -- MSGPACK_RPC_PARSE_TOML_VALUE and MSGPACK_RPC_PARSE_TOML_VALUE_DURATION.
  unfoldable pub rethrown : {C : Type 0} → Node → String → Result Status C → Result Status C
  unfolding throw_error_with
  rethrown node key (ok c) = ok c
  rethrown node key (err s) = err (throw_error_with node key (message s))

  unfoldable pub parse_value :
      {A C : Type 0} → Node → String → Option A → (A → C → Result Status C) → C → Result Status C
  unfolding throw_error rethrown
  parse_value node key none set c = err (throw_error node key)
  parse_value node key (some v) set c = rethrown node key (set v c)

  -- The loop over the keys of a table.
  unfoldable pub each_key :
      {C : Type 0}
      → (String → Node → C → Result Status C)
      → List (String × Node)
      → C
      → Result Status C
  each_key step [] c = ok c
  each_key step ((key, node) ∷ rest) c = step key node c >>= each_key step rest

  -- A table inside of a table, and where its configuration is put.
  unfoldable pub parse_child :
      {C D : Type 0}
      → Node
      → String
      → (List (String × Node) → Result Status D)
      → (D → C)
      → Result Status C
  unfolding throw_error
  parse_child node key parse put = elim (t.as_table node) [
    | none ↦ err (throw_error node key)
    | some table ↦ parse table >>= λ d. ok (put d)
  ]

  -- The loop over the URIs.
  unfoldable pub each_uri :
      {C : Type 0} → (String → C → Result Status C) → List Node → C → Result Status C
  unfolding throw_error rethrown
  each_uri add [] c = ok c
  each_uri add (node ∷ rest) c = elim (t.as_string node) [
    | none ↦ err (throw_error node "uris")
    | some text ↦ rethrown node "uris" (add text c) >>= each_uri add rest
  ]

  unfoldable pub parse_uris :
      {C : Type 0} → Node → (String → C → Result Status C) → C → Result Status C
  unfolding each_uri throw_error
  parse_uris node add c = elim (t.as_array node) [
    | none ↦ err (throw_error node "uris")
    | some nodes ↦ each_uri add nodes c
  ]

  unfoldable pub message_parser_key :
      String → Node → MessageParserConfig → Result Status MessageParserConfig
  unfolding parse_value
  message_parser_key key node c =
      if key == "read_buffer_size"
      then parse_value node "read_buffer_size" (t.size_value node) set_read_buffer_size c
      else ok c

  unfoldable pub executor_key : String → Node → ExecutorConfig → Result Status ExecutorConfig
  unfolding parse_value
  executor_key key node c =
      if key == "num_transport_threads"
      then parse_value node "num_transport_threads" (t.size_value node) set_num_transport_threads c
      else if key == "num_callback_threads"
      then parse_value node "num_callback_threads" (t.size_value node) set_num_callback_threads c
      else ok c

  unfoldable pub reconnection_key :
      String → Node → ReconnectionConfig → Result Status ReconnectionConfig
  unfolding parse_value
  reconnection_key key node c =
      if key == "initial_waiting_time_sec"
      then parse_value node "initial_waiting_time_sec" (t.duration_value node)
          set_initial_waiting_time c
      else if key == "max_waiting_time_sec"
      then parse_value node "max_waiting_time_sec" (t.duration_value node) set_max_waiting_time c
      else if key == "max_jitter_waiting_time_sec"
      then parse_value node "max_jitter_waiting_time_sec" (t.duration_value node)
          set_max_jitter_waiting_time c
      else ok c

  unfoldable pub client_key : Library → String → Node → ClientConfig → Result Status ClientConfig
  unfolding parse_uris parse_value parse_child each_key message_parser_key executor_key
      reconnection_key
  client_key l key node c =
      if key == "uris"
      then parse_uris node (add_client_uri l) c
      else if key == "call_timeout_sec"
      then parse_value node "call_timeout_sec" (t.duration_value node) set_call_timeout c
      else if key == "message_parser"
      then parse_child node "message_parser"
          (λ table. each_key message_parser_key table c.message_parser)
          (λ d. record c { message_parser = d })
      else if key == "executor"
      then parse_child node "executor" (λ table. each_key executor_key table c.executor)
          (λ d. record c { executor = d })
      else if key == "reconnection"
      then parse_child node "reconnection" (λ table. each_key reconnection_key table c.reconnection)
          (λ d. record c { reconnection = d })
      else ok c

  unfoldable pub server_key : Library → String → Node → ServerConfig → Result Status ServerConfig
  unfolding parse_uris parse_child each_key message_parser_key executor_key
  server_key l key node c =
      if key == "uris"
      then parse_uris node (add_server_uri l) c
      else if key == "message_parser"
      then parse_child node "message_parser"
          (λ table. each_key message_parser_key table c.message_parser)
          (λ d. record c { message_parser = d })
      else if key == "executor"
      then parse_child node "executor" (λ table. each_key executor_key table c.executor)
          (λ d. record c { executor = d })
      else ok c

  unfoldable pub parse_log_level : String → Node → String → Result Status LogLevel
  unfolding throw_error
  parse_log_level text node key =
      if text == "trace"
      then ok trace
      else if text == "debug"
      then ok debug
      else if text == "info"
      then ok info
      else if text == "warn"
      then ok warn
      else if text == "error"
      then ok error
      else if text == "critical"
      then ok critical
      else err (throw_error node key)

  unfoldable pub parse_level_node :
      Node → Option String → LoggingConfig → Result Status LoggingConfig
  unfolding throw_error parse_log_level
  parse_level_node node none c = err (throw_error node "output_log_level")
  parse_level_node node (some text) c =
      parse_log_level text node "output_log_level" >>= λ level. ok (set_output_log_level level c)

  unfoldable pub logging_key : String → Node → LoggingConfig → Result Status LoggingConfig
  unfolding parse_value parse_level_node
  logging_key key node c =
      if key == "file_path"
      then parse_value node "file_path" (t.string_value node) (λ path d. ok (set_file_path path d))
          c
      else if key == "max_file_size"
      then parse_value node "max_file_size" (t.size_value node) set_max_file_size c
      else if key == "max_files"
      then parse_value node "max_files" (t.size_value node) set_max_files c
      else if key == "output_log_level"
      then parse_level_node node (t.string_value node) c
      else ok c
