-- ===== src/Config/Parser.antt =====
-- config/toml/parse_toml.cpp, config/toml/parse_toml_root.h, config/config_parser.cpp: the whole of a
-- file, and the parser that keeps what its files gave.
use Prim.Native.String.{◌++◌}
use cpp_msgpack_rpc.Common.{ℕ, Option, none, some, List, [], ◌∷◌, Result, ok, err, String}
use cpp_msgpack_rpc.Status.{Status, status, message, invalid_argument}
use cpp_msgpack_rpc.Addresses.Uri.{Library}
use cpp_msgpack_rpc.Config.Settings.{
  LoggingConfig, ClientConfig, ServerConfig, default_logging, default_client, default_server,
}
use cpp_msgpack_rpc.Config.Toml.{
  Toml, ConfigMap, find, try_emplace, Configs, Reading, throw_error_with, each_key, logging_key,
  client_key, server_key,
}

module _ {Node : Type 0} (t : Toml Node) where
  -- The configuration of one name.
  unfoldable pub parse_named :
      {C : Type 0} → String → (List (String × Node) → Result Status C) → Node → Result Status C
  unfolding throw_error_with
  parse_named key parse node = elim (t.as_table node) [
    | none ↦ err (throw_error_with t node key ("\"" ++ (key ++ "\" must be a table of tables.")))
    | some table ↦ parse table
  ]

  -- The functions of parse_toml_client_server.h and parse_toml_logging.h for a table of tables, with the
  -- key of the configurations and the parser of one of them.
  unfoldable pub parse_configs :
      {C : Type 0}
      → String
      → (List (String × Node) → Result Status C)
      → List (String × Node)
      → ConfigMap C
      → Reading (ConfigMap C)
  unfolding try_emplace parse_named
  parse_configs key parse [] m = (m, none)
  parse_configs key parse ((name, node) ∷ rest) m = elim (parse_named key parse node) [
    | err s ↦ (m, some s)
    | ok c ↦ parse_configs key parse rest (try_emplace m name c)
  ]

  -- One of the three tables of the root, which may be missing.
  unfoldable pub parse_section :
      {C : Type 0}
      → List (String × Node)
      → String
      → (List (String × Node) → Result Status C)
      → ConfigMap C
      → Reading (ConfigMap C)
  unfolding parse_configs throw_error_with
  parse_section root key parse m = elim (t.at_path root key) [
    | none ↦ (m, none)
    | some node ↦ elim (t.as_table node) [
      | none ↦
          (m, some (throw_error_with t node key ("\"" ++ (key ++ "\" must be a table of tables."))))
      | some table ↦ parse_configs key parse table m
    ]
  ]

  abbrev pub with_logging : Configs → Reading (ConfigMap LoggingConfig) → Reading Configs
  with_logging cs (m, thrown) = (record cs { logging_configs = m }, thrown)

  abbrev pub with_clients : Configs → Reading (ConfigMap ClientConfig) → Reading Configs
  with_clients cs (m, thrown) = (record cs { client_configs = m }, thrown)

  abbrev pub with_servers : Configs → Reading (ConfigMap ServerConfig) → Reading Configs
  with_servers cs (m, thrown) = (record cs { server_configs = m }, thrown)

  -- What follows is done only if nothing was thrown.
  abbrev pub and_then : Reading Configs → (Configs → Reading Configs) → Reading Configs
  and_then (cs, some s) next = (cs, some s)
  and_then (cs, none) next = next cs

  unfoldable pub parse_logging : List (String × Node) → Configs → Reading Configs
  unfolding parse_section
  parse_logging root cs = with_logging cs (
      parse_section root "logging" (λ table. each_key t (logging_key t) table default_logging)
        cs.logging_configs)

  unfoldable pub parse_clients : Library → ℕ → List (String × Node) → Configs → Reading Configs
  unfolding parse_section
  parse_clients l reserve_size root cs = with_clients cs (
      parse_section root "client"
        (λ table. each_key t (client_key t l) table (default_client reserve_size))
        cs.client_configs)

  unfoldable pub parse_servers : Library → ℕ → List (String × Node) → Configs → Reading Configs
  unfolding parse_section
  parse_servers l reserve_size root cs = with_servers cs (
      parse_section root "server"
        (λ table. each_key t (server_key t l) table (default_server reserve_size))
        cs.server_configs)

  -- `parse_toml` of a root table.
  unfoldable pub parse_root : Library → ℕ → List (String × Node) → Configs → Reading Configs
  unfolding parse_logging parse_clients parse_servers
  parse_root l reserve_size root cs =
      and_then (and_then (parse_logging root cs) (parse_clients l reserve_size root))
        (parse_servers l reserve_size root)

  -- The handlers of `parse_toml` of a file.
  unfoldable pub explained : String → Option Status → Option Status
  explained file_path none = none
  explained file_path (some s) =
      some (status invalid_argument ("Failed to parse " ++ (file_path ++ (": " ++ message s))))

  -- ConfigParser::parse, with the root table that the TOML library reads or its description of an error
  -- with the place.
  unfoldable pub parse :
      Library → ℕ → String → Result String (List (String × Node)) → Configs → Reading Configs
  unfolding parse_root explained
  parse l reserve_size file_path (err text) cs =
      (cs, some (status invalid_argument ("Failed to parse " ++ (file_path ++ (": " ++ text)))))
  parse l reserve_size file_path (ok root) cs =
      let (read, thrown) = parse_root l reserve_size root cs in (read, explained file_path thrown)

-- ConfigParser::logging_config, client_config and server_config, with the word of each.
unfoldable pub config_of : {C : Type 0} → String → ConfigMap C → String → Result Status C
config_of kind m name = elim (find name m) [
  | some c ↦ ok c
  | none ↦
      err (
        status invalid_argument
          ("Configuration of " ++ (kind ++ (" not found: " ++ (name ++ ".")))))
]
