-- ===== src/Config/Usable.antt =====
-- config/: what is required of a configuration, and that the parser of each table keeps it.
use text.Mathlib.Text.{◌==◌}
use cpp_msgpack_rpc.Common.{
  ℕ, zero, suc, ◌≤◌, ℤ, pos, negsuc, ◌≡◌, refl, true, false, List, [], ◌∷◌, String, arith,
}
use cpp_msgpack_rpc.Addresses.Uri.{Uri}
use cpp_msgpack_rpc.Addresses.Uri.RoundTrip.{IsValid}
use cpp_msgpack_rpc.Config.Settings.{
  LoggingConfig, MessageParserConfig, ExecutorConfig, ReconnectionConfig, ClientConfig,
  ServerConfig, is_positive, is_negative, is_some_number, default_logging, default_client,
  default_server, default_message_parser, default_executor, default_reconnection,
  set_read_buffer_size, set_num_transport_threads, set_num_callback_threads,
  set_initial_waiting_time, set_max_waiting_time, set_max_jitter_waiting_time,
}
use cpp_msgpack_rpc.Config.Toml.{Toml, message_parser_key, executor_key, reconnection_key}
use cpp_msgpack_rpc.Config.Holds.{Holds, checked-Holds, if-Holds, parse_value-Holds}

abbrev pub AllValid : List Uri → Type 0
AllValid [] = Unit {0}
AllValid (u ∷ us) = IsValid u × AllValid us

abbrev pub UsableParser : MessageParserConfig → Type 0
UsableParser c = 1 ≤ c.read_buffer_size

abbrev pub UsableExecutor : ExecutorConfig → Type 0
UsableExecutor c = (1 ≤ c.num_transport_threads) × (1 ≤ c.num_callback_threads)

abbrev pub UsableReconnection : ReconnectionConfig → Type 0
UsableReconnection c =
    (is_positive c.initial_waiting_time ≡ true)
    × (is_positive c.max_waiting_time ≡ true)
    × (is_negative c.max_jitter_waiting_time ≡ false)

abbrev pub UsableClient : ClientConfig → Type 0
UsableClient c =
    AllValid c.uris
    × (is_positive c.call_timeout ≡ true)
    × UsableParser c.message_parser
    × UsableExecutor c.executor
    × UsableReconnection c.reconnection

abbrev pub UsableServer : ServerConfig → Type 0
UsableServer c = AllValid c.uris × UsableParser c.message_parser × UsableExecutor c.executor

abbrev pub UsableLogging : LoggingConfig → Type 0
UsableLogging c = (1 ≤ c.max_file_size) × (1 ≤ c.max_files)

pub some_number : (n : ℕ) → is_some_number n ≡ true → 1 ≤ n
some_number zero e = cc
some_number (suc n) e = omega arith

pub default_logging-Usable : UsableLogging default_logging
unfolding default_logging
default_logging-Usable = (omega arith, omega arith)

pub default_client-Usable : (n : ℕ) → 1 ≤ n → UsableClient (default_client n)
unfolding default_client default_message_parser default_executor default_reconnection
default_client-Usable n h = (_, refl, h, (omega arith, omega arith), (refl, refl, refl))

pub default_server-Usable : (n : ℕ) → 1 ≤ n → UsableServer (default_server n)
unfolding default_server default_message_parser default_executor
default_server-Usable n h = (_, h, (omega arith, omega arith))

module _ {Node : Type 0} (t : Toml Node) where
  pub message_parser_key-Usable :
      (key : String) (node : Node) (c : MessageParserConfig)
      → UsableParser c
      → Holds UsableParser (message_parser_key t key node c)
  unfolding message_parser_key set_read_buffer_size
  message_parser_key-Usable key node c u =
      if-Holds UsableParser (key == "read_buffer_size") _ _
        (parse_value-Holds t UsableParser node "read_buffer_size" (t.size_value node)
          set_read_buffer_size c
          (λ v. checked-Holds UsableParser (is_some_number v) _ _ (some_number v)))
        u

  pub executor_key-Usable :
      (key : String) (node : Node) (c : ExecutorConfig)
      → UsableExecutor c
      → Holds UsableExecutor (executor_key t key node c)
  unfolding executor_key set_num_transport_threads set_num_callback_threads
  executor_key-Usable key node c (u, v) =
      if-Holds UsableExecutor (key == "num_transport_threads") _ _
        (parse_value-Holds t UsableExecutor node "num_transport_threads" (t.size_value node)
          set_num_transport_threads c
          (λ n. checked-Holds UsableExecutor (is_some_number n) _ _ (λ e. (some_number n e, v))))
        (if-Holds UsableExecutor (key == "num_callback_threads") _ _
          (parse_value-Holds t UsableExecutor node "num_callback_threads" (t.size_value node)
            set_num_callback_threads c
            (λ n. checked-Holds UsableExecutor (is_some_number n) _ _ (λ e. (u, some_number n e))))
          (u, v))

  jitter-Usable :
      (c : ReconnectionConfig) (v : ℤ)
      → UsableReconnection c
      → Holds UsableReconnection (set_max_jitter_waiting_time v c)
  unfolding set_max_jitter_waiting_time
  jitter-Usable c (pos n) (a, b, j) = (a, b, refl)
  jitter-Usable c (negsuc n) u = refl

  pub reconnection_key-Usable :
      (key : String) (node : Node) (c : ReconnectionConfig)
      → UsableReconnection c
      → Holds UsableReconnection (reconnection_key t key node c)
  unfolding reconnection_key set_initial_waiting_time set_max_waiting_time
  reconnection_key-Usable key node c (a, b, j) =
      let P = UsableReconnection in
      if-Holds P (key == "initial_waiting_time_sec") _ _
        (parse_value-Holds t P node "initial_waiting_time_sec" (t.duration_value node)
          set_initial_waiting_time c (λ v. checked-Holds P (is_positive v) _ _ (λ e. (e, b, j))))
        (if-Holds P (key == "max_waiting_time_sec") _ _
          (parse_value-Holds t P node "max_waiting_time_sec" (t.duration_value node)
            set_max_waiting_time c (λ v. checked-Holds P (is_positive v) _ _ (λ e. (a, e, j))))
          (if-Holds P (key == "max_jitter_waiting_time_sec") _ _
            (parse_value-Holds t P node "max_jitter_waiting_time_sec" (t.duration_value node)
              set_max_jitter_waiting_time c (λ v. jitter-Usable c v (a, b, j)))
            (a, b, j)))
