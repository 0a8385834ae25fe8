-- ===== src/Tests/Config.antt =====
-- A file with the configuration of one client, read by a small TOML library.
use cpp_msgpack_rpc.Common.{ℕ, ℤ, pos, Option, none, some, List, [], ◌∷◌, ok, String, arith}
use cpp_msgpack_rpc.Config.Settings.{default_client}
use cpp_msgpack_rpc.Config.Toml.{Toml, Configs, find}
use cpp_msgpack_rpc.Config.Parser.{parse}
use cpp_msgpack_rpc.Config.Reading.{AreUsable, ReadsUsable, parse-ReadsUsable}
use cpp_msgpack_rpc.Config.Usable.{default_client-Usable}
use cpp_msgpack_rpc.Config.Kept.{KeepsAll, parse-KeepsAll}
use cpp_msgpack_rpc.Tests.Matcher.{library, library-IsLawful}

mutual
  data Node : Type 0 where
    number : ℕ → Node
    seconds : ℕ → Node
    text : String → Node
    array table : Nodes → Node

  data Nodes : Type 0 where
    end : Nodes
    node : String → Node → Nodes → Nodes

abbrev pairs : Nodes → List (String × Node)
pairs end = []
pairs (node key n ns) = (key, n) ∷ pairs ns

abbrev values : Nodes → List Node
values end = []
values (node key n ns) = n ∷ values ns

abbrev table_of : Node → Option (List (String × Node))
table_of (table ns) = some (pairs ns)
table_of _ = none

abbrev array_of : Node → Option (List Node)
array_of (array ns) = some (values ns)
array_of _ = none

abbrev text_of : Node → Option String
text_of (text s) = some s
text_of _ = none

abbrev number_of : Node → Option ℕ
number_of (number n) = some n
number_of _ = none

abbrev duration_of : Node → Option ℤ
duration_of (seconds n) = some (pos n)
duration_of _ = none

abbrev toml : Toml Node
unfolding find
toml = record {
  as_table = table_of;
  as_array = array_of;
  as_string = text_of;
  string_value = text_of;
  size_value = number_of;
  duration_value = duration_of;
  place = λ n. "file:1";
  at_path = λ root key. find key root;
}

abbrev client_table : Nodes
client_table = node "uris" (array (node "" (text "tcp://localhost:80") end)) (
    node "call_timeout_sec" (seconds 5)
      (node "executor" (table (node "num_callback_threads" (number 2) end)) end))

abbrev root : List (String × Node)
root = ("client", table (node "a" (table client_table) (node "b" (number 3) end))) ∷ []

-- The client "b" has had a configuration before.
abbrev before : Configs
before = record {
  logging_configs = [];
  client_configs = ("b", default_client 32768) ∷ [];
  server_configs = [];
}

before-AreUsable : AreUsable before
before-AreUsable = (_, (default_client-Usable 32768 (omega arith), _), _)

parse-ReadsUsable_example : ReadsUsable (parse toml library 32768 "a.toml" (ok root) before)
parse-ReadsUsable_example =
    parse-ReadsUsable toml library library-IsLawful 32768 (omega arith) "a.toml" (ok root) before
      before-AreUsable

parse-KeepsAll_example : KeepsAll before (parse toml library 32768 "a.toml" (ok root) before).0
parse-KeepsAll_example = parse-KeepsAll toml library 32768 "a.toml" (ok root) before
