-- ===== src/Config/Tables.antt =====
-- config/toml: the parsers of a logger's, a client's and a server's table keep what is required.
use text.Mathlib.Text.{◌==◌}
use cpp_msgpack_rpc.Common.{refl, Option, none, some, List, [], ◌∷◌, ◌++◌, Result, ok, err, String}
use cpp_msgpack_rpc.Status.{Status}
use cpp_msgpack_rpc.Addresses.Uri
use cpp_msgpack_rpc.Addresses.Uri.{Uri, Library, IsLawful}
use cpp_msgpack_rpc.Addresses.Uri.RoundTrip.{IsValid}
use cpp_msgpack_rpc.Addresses.Uri.Reading.{IsParsed, parse-IsParsed}
use cpp_msgpack_rpc.Config.Settings.{
  LogLevel, LoggingConfig, ClientConfig, ServerConfig, is_positive, is_some_number, set_file_path,
  set_max_file_size, set_max_files, set_output_log_level, set_call_timeout, add_client_uri,
  add_server_uri,
}
use cpp_msgpack_rpc.Config.Toml.{
  Toml, message_parser_key, executor_key, reconnection_key, client_key, server_key, logging_key,
  parse_level_node, parse_log_level, throw_error,
}
use cpp_msgpack_rpc.Config.Holds.{
  Holds, checked-Holds, if-Holds, >>=-Holds, parse_value-Holds, each_key-Holds, parse_child-Holds,
  parse_uris-Holds,
}
use cpp_msgpack_rpc.Config.Usable.{
  AllValid, UsableParser, UsableExecutor, UsableReconnection, UsableClient, UsableServer,
  UsableLogging, some_number, message_parser_key-Usable, executor_key-Usable,
  reconnection_key-Usable,
}

AllValid-append : (us : List Uri) (u : Uri) → AllValid us → IsValid u → AllValid (us ++ u ∷ [])
AllValid-append [] u a v = (v, _)
AllValid-append (w ∷ us) u (h, a) v = (h, AllValid-append us u a v)

IsParsed-Holds : (text : String) (r : Result Status Uri) → IsParsed text r → Holds IsValid r
IsParsed-Holds text (ok u) v = v
IsParsed-Holds text (err s) e = rw e refl

module _ {Node : Type 0} (t : Toml Node) where
  parse_log_level-Holds :
      (text : String) (node : Node) (key : String)
      → Holds (λ level. Unit {0}) (parse_log_level t text node key)
  unfolding parse_log_level throw_error
  parse_log_level-Holds text node key =
      let P : LogLevel → Type 0 = λ level. Unit {0} in
      if-Holds P (text == "trace") _ _ _ (
        if-Holds P (text == "debug") _ _ _ (
          if-Holds P (text == "info") _ _ _ (
            if-Holds P (text == "warn") _ _ _
              (if-Holds P (text == "error") _ _ _ (if-Holds P (text == "critical") _ _ _ refl)))))

  parse_level_node-Usable :
      (node : Node) (o : Option String) (c : LoggingConfig)
      → UsableLogging c
      → Holds UsableLogging (parse_level_node t node o c)
  unfolding parse_level_node throw_error set_output_log_level
  parse_level_node-Usable node none c u = refl
  parse_level_node-Usable node (some text) c u =
      >>=-Holds (λ level. Unit {0}) UsableLogging (parse_log_level t text node "output_log_level") _
        (parse_log_level-Holds text node "output_log_level") (λ level h. u)

  pub logging_key-Usable :
      (key : String) (node : Node) (c : LoggingConfig)
      → UsableLogging c
      → Holds UsableLogging (logging_key t key node c)
  unfolding logging_key set_max_file_size set_max_files set_file_path
  logging_key-Usable key node c (a, b) =
      let P = UsableLogging in
      if-Holds P (key == "file_path") _ _
        (parse_value-Holds t P node "file_path" (t.string_value node)
          (λ path d. ok (set_file_path path d)) c (λ v. (a, b)))
        (if-Holds P (key == "max_file_size") _ _
          (parse_value-Holds t P node "max_file_size" (t.size_value node) set_max_file_size c
            (λ n. checked-Holds P (is_some_number n) _ _ (λ e. (some_number n e, b))))
          (if-Holds P (key == "max_files") _ _
            (parse_value-Holds t P node "max_files" (t.size_value node) set_max_files c
              (λ n. checked-Holds P (is_some_number n) _ _ (λ e. (a, some_number n e))))
            (if-Holds P (key == "output_log_level") _ _
              (parse_level_node-Usable node (t.string_value node) c (a, b)) (a, b))))

module _ {Node : Type 0} (t : Toml Node) (l : Library) (lawful : IsLawful l) where
  add_client_uri-Usable :
      (text : String) (c : ClientConfig)
      → UsableClient c
      → Holds UsableClient (add_client_uri l text c)
  unfolding add_client_uri
  add_client_uri-Usable text c (us, time, m, e, r) =
      >>=-Holds IsValid UsableClient (Uri.parse l text) _
        (IsParsed-Holds text (Uri.parse l text) (parse-IsParsed l lawful text))
        (λ u v. (AllValid-append c.uris u us v, time, m, e, r))

  add_server_uri-Usable :
      (text : String) (c : ServerConfig)
      → UsableServer c
      → Holds UsableServer (add_server_uri l text c)
  unfolding add_server_uri
  add_server_uri-Usable text c (us, m, e) =
      >>=-Holds IsValid UsableServer (Uri.parse l text) _
        (IsParsed-Holds text (Uri.parse l text) (parse-IsParsed l lawful text))
        (λ u v. (AllValid-append c.uris u us v, m, e))

  pub client_key-Usable :
      (key : String) (node : Node) (c : ClientConfig)
      → UsableClient c
      → Holds UsableClient (client_key t l key node c)
  unfolding client_key set_call_timeout
  client_key-Usable key node c (us, time, m, e, r) =
      let P = UsableClient in
      if-Holds P (key == "uris") _ _
        (parse_uris-Holds t P node (add_client_uri l) c add_client_uri-Usable (us, time, m, e, r))
        (if-Holds P (key == "call_timeout_sec") _ _
          (parse_value-Holds t P node "call_timeout_sec" (t.duration_value node) set_call_timeout c
            (λ v. checked-Holds P (is_positive v) _ _ (λ h. (us, h, m, e, r))))
          (if-Holds P (key == "message_parser") _ _
            (parse_child-Holds t UsableParser P node "message_parser" _ _
              (λ table.
                each_key-Holds t UsableParser (message_parser_key t) table c.message_parser
                  (message_parser_key-Usable t) m)
              (λ d h. (us, time, h, e, r)))
            (if-Holds P (key == "executor") _ _
              (parse_child-Holds t UsableExecutor P node "executor" _ _
                (λ table.
                  each_key-Holds t UsableExecutor (executor_key t) table c.executor
                    (executor_key-Usable t) e)
                (λ d h. (us, time, m, h, r)))
              (if-Holds P (key == "reconnection") _ _
                (parse_child-Holds t UsableReconnection P node "reconnection" _ _
                  (λ table.
                    each_key-Holds t UsableReconnection (reconnection_key t) table c.reconnection
                      (reconnection_key-Usable t) r)
                  (λ d h. (us, time, m, e, h)))
                (us, time, m, e, r)))))

  pub server_key-Usable :
      (key : String) (node : Node) (c : ServerConfig)
      → UsableServer c
      → Holds UsableServer (server_key t l key node c)
  unfolding server_key
  server_key-Usable key node c (us, m, e) =
      let P = UsableServer in
      if-Holds P (key == "uris") _ _
        (parse_uris-Holds t P node (add_server_uri l) c add_server_uri-Usable (us, m, e))
        (if-Holds P (key == "message_parser") _ _
          (parse_child-Holds t UsableParser P node "message_parser" _ _
            (λ table.
              each_key-Holds t UsableParser (message_parser_key t) table c.message_parser
                (message_parser_key-Usable t) m)
            (λ d h. (us, h, e)))
          (if-Holds P (key == "executor") _ _
            (parse_child-Holds t UsableExecutor P node "executor" _ _
              (λ table.
                each_key-Holds t UsableExecutor (executor_key t) table c.executor
                  (executor_key-Usable t) e)
              (λ d h. (us, m, h)))
            (us, m, e)))
