-- ===== src/Config/Kept.antt =====
-- config_parser.cpp: a parser that reads several files.
use text.Mathlib.Text
use text.Mathlib.TextEquality.{eq_iff}
use cpp_msgpack_rpc.Common.{
  ℕ, ◌≡◌, ◌∙◌, sym, inl, inr, Bool-cases, Option-cases, none, some, List, [], ◌∷◌, Result, ok, err,
  String,
}
use cpp_msgpack_rpc.Status.{Status}
use cpp_msgpack_rpc.Addresses.Uri.{Library}
use cpp_msgpack_rpc.Config.Settings.{default_client, default_server, default_logging}
use cpp_msgpack_rpc.Config.Toml.{
  Toml, ConfigMap, find, try_emplace, Configs, Reading, each_key, logging_key, client_key,
  server_key,
}
use cpp_msgpack_rpc.Config.Parser.{
  parse_named, parse_configs, parse_section, parse_logging, parse_clients, parse_servers,
  parse_root, and_then, parse,
}
use cpp_msgpack_rpc.Config.Reading.{Result-cases}

-- Every name that has a configuration in m has the same in n.
abbrev pub Keeps : {C : Type 0} → ConfigMap C → ConfigMap C → Type 0
Keeps {C} m n = (name : String) (c : C) → find name m ≡ some c → find name n ≡ some c

abbrev pub KeepsAll : Configs → Configs → Type 0
KeepsAll a b =
    Keeps a.logging_configs b.logging_configs
    × Keeps a.client_configs b.client_configs
    × Keeps a.server_configs b.server_configs

find_apart :
    {C : Type 0} (m : ConfigMap C) (k : String) (d : C) (name : String) (c : C)
    → find k m ≡ none
    → find name m ≡ some c
    → find name ((k, d) ∷ m) ≡ some c
unfolding find
find_apart m k d name c e f = elim (Bool-cases (Text.◌==◌ k name)) [
  | inl same ↦
      let names : k ≡ name = (eq_iff k name).0 same in
      let none_there : find name m ≡ none = rw names at e in
      let wrong : none ≡ some c = sym none_there ∙ f in absurd (cc)
  | inr other ↦ rw other f
]

try_emplace-Keeps :
    {C : Type 0} (m : ConfigMap C) (k : String) (d : C) → Keeps m (try_emplace m k d)
unfolding try_emplace
try_emplace-Keeps m k d name c f = elim (Option-cases (find k m)) [
  | inl e ↦ rw (e, try_emplace) (find_apart m k d name c e f)
  | inr (b, e) ↦ rw (e, try_emplace) f
]

module _ {Node : Type 0} (t : Toml Node) where
  parse_configs-Keeps :
      {C : Type 0} (key : String) (parse_one : List (String × Node) → Result Status C)
      (table : List (String × Node)) (m : ConfigMap C)
      → Keeps m (parse_configs t key parse_one table m).0
  unfolding parse_configs
  parse_configs-Keeps key parse_one [] m name c f = f
  parse_configs-Keeps key parse_one ((k, node) ∷ rest) m name c f =
      elim (Result-cases (parse_named t key parse_one node)) [
        | inl (d, e) ↦
            rw (e, parse_configs)
              (parse_configs-Keeps key parse_one rest (try_emplace m k d) name c
                (try_emplace-Keeps m k d name c f))
        | inr (s, e) ↦ rw (e, parse_configs) f
      ]

  parse_section-Keeps :
      {C : Type 0} (root : List (String × Node)) (key : String)
      (parse_one : List (String × Node) → Result Status C) (m : ConfigMap C)
      → Keeps m (parse_section t root key parse_one m).0
  unfolding parse_section
  parse_section-Keeps root key parse_one m name c f = elim (Option-cases (t.at_path root key)) [
    | inl e ↦ rw (e, parse_section) f
    | inr (node, e) ↦ elim (Option-cases (t.as_table node)) [
      | inl g ↦ rw (e, g, parse_section) f
      | inr (table, g) ↦
          rw (e, g, parse_section) (parse_configs-Keeps key parse_one table m name c f)
    ]
  ]

  and_then-KeepsAll :
      (cs : Configs) (r : Reading Configs) (next : Configs → Reading Configs)
      → KeepsAll cs r.0
      → ((ds : Configs) → KeepsAll ds (next ds).0)
      → KeepsAll cs (and_then t r next).0
  and_then-KeepsAll cs (ds, some s) next k h = k
  and_then-KeepsAll cs (ds, none) next (a, b, c) h =
      let (x, y, z) = h ds in
      (
        λ name d f. x name d (a name d f),
        λ name d f. y name d (b name d f),
        λ name d f. z name d (c name d f),
      )

  parse_logging-KeepsAll :
      (root : List (String × Node)) (cs : Configs) → KeepsAll cs (parse_logging t root cs).0
  unfolding parse_logging
  parse_logging-KeepsAll root cs = (
    parse_section-Keeps root "logging"
        (λ (table : List (String × Node)). each_key t (logging_key t) table default_logging)
        cs.logging_configs,
    λ name c f. f,
    λ name c f. f,
  )

  module _ (l : Library) (reserve_size : ℕ) where
    parse_clients-KeepsAll :
        (root : List (String × Node)) (cs : Configs)
        → KeepsAll cs (parse_clients t l reserve_size root cs).0
    unfolding parse_clients
    parse_clients-KeepsAll root cs = (
      λ name c f. f,
      parse_section-Keeps root "client"
          (λ (table : List (String × Node)).
            each_key t (client_key t l) table (default_client reserve_size))
          cs.client_configs,
      λ name c f. f,
    )

    parse_servers-KeepsAll :
        (root : List (String × Node)) (cs : Configs)
        → KeepsAll cs (parse_servers t l reserve_size root cs).0
    unfolding parse_servers
    parse_servers-KeepsAll root cs = (
      λ name c f. f,
      λ name c f. f,
      parse_section-Keeps root "server"
          (λ (table : List (String × Node)).
            each_key t (server_key t l) table (default_server reserve_size))
          cs.server_configs,
    )

    -- Each name that has a configuration in a parser has the same one after the parser has read another
    -- file, also when that throws.
    pub parse-KeepsAll :
        (file_path : String) (root : Result String (List (String × Node))) (cs : Configs)
        → KeepsAll cs (parse t l reserve_size file_path root cs).0
    unfolding parse parse_root
    parse-KeepsAll file_path (err text) cs = (λ name c f. f, λ name c f. f, λ name c f. f)
    parse-KeepsAll file_path (ok root) cs =
        and_then-KeepsAll cs
          (and_then t (parse_logging t root cs) (parse_clients t l reserve_size root))
          (parse_servers t l reserve_size root)
          (and_then-KeepsAll cs (parse_logging t root cs) (parse_clients t l reserve_size root)
            (parse_logging-KeepsAll root cs) (parse_clients-KeepsAll root))
          (parse_servers-KeepsAll root)
