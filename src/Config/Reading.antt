-- ===== src/Config/Reading.antt =====
-- config_parser.cpp: the configurations that a parser has after it has read a file.
use cpp_msgpack_rpc.Common.{
  ℕ, ◌⊎◌, inl, inr, Option-cases, ◌≤◌, ◌≡◌, refl, Option, none, some, List, [], ◌∷◌, Result, ok,
  err, String,
}
use cpp_msgpack_rpc.Status.{Status, code, invalid_argument}
use cpp_msgpack_rpc.Addresses.Uri.{Library, IsLawful}
use cpp_msgpack_rpc.Config.Settings.{default_logging, default_client, default_server}
use cpp_msgpack_rpc.Config.Toml.{
  Toml, ConfigMap, find, try_emplace, Configs, Reading, throw_error_with, each_key, logging_key,
  client_key, server_key,
}
use cpp_msgpack_rpc.Config.Parser.{
  parse_named, parse_configs, parse_section, parse_logging, parse_clients, parse_servers,
  parse_root, and_then, explained, parse,
}
use cpp_msgpack_rpc.Config.Holds.{Holds, each_key-Holds}
use cpp_msgpack_rpc.Config.Usable.{
  UsableLogging, UsableClient, UsableServer, default_logging-Usable, default_client-Usable,
  default_server-Usable,
}
use cpp_msgpack_rpc.Config.Tables.{logging_key-Usable, client_key-Usable, server_key-Usable}

abbrev pub Each : {C : Type 0} → (C → Type 0) → ConfigMap C → Type 0
Each P [] = Unit {0}
Each P ((name, c) ∷ m) = P c × Each P m

abbrev pub IsInvalid : Option Status → Type 0
IsInvalid none = Unit {0}
IsInvalid (some s) = code s ≡ invalid_argument

abbrev Reads : {C : Type 0} → (C → Type 0) → Reading (ConfigMap C) → Type 0
Reads P (m, thrown) = Each P m × IsInvalid thrown

abbrev pub AreUsable : Configs → Type 0
AreUsable cs =
    Each UsableLogging cs.logging_configs
    × Each UsableClient cs.client_configs
    × Each UsableServer cs.server_configs

abbrev pub ReadsUsable : Reading Configs → Type 0
ReadsUsable (cs, thrown) = AreUsable cs × IsInvalid thrown

explained-IsInvalid :
    {Node : Type 0} (t : Toml Node) (file_path : String) (thrown : Option Status)
    → IsInvalid (explained t file_path thrown)
unfolding explained
explained-IsInvalid t file_path none = _
explained-IsInvalid t file_path (some s) = refl

emplaced-Each :
    {C : Type 0} (P : C → Type 0) (m : ConfigMap C) (name : String) (c : C) (o : Option C)
    → P c
    → Each P m
    → Each P (elim o [ some d ↦ m | none ↦ (name, c) ∷ m ])
emplaced-Each P m name c (some d) p e = e
emplaced-Each P m name c none p e = (p, e)

try_emplace-Each :
    {C : Type 0} (P : C → Type 0) (m : ConfigMap C) (name : String) (c : C)
    → P c
    → Each P m
    → Each P (try_emplace m name c)
unfolding try_emplace
try_emplace-Each P m name c p e = emplaced-Each P m name c (find name m) p e

pub Result-cases :
    {A : Type 0} (r : Result Status A) → ((a : A) × (r ≡ ok a)) ⊎ ((s : Status) × (r ≡ err s))
Result-cases (ok a) = inl (a, refl)
Result-cases (err s) = inr (s, refl)

module _ {Node : Type 0} (t : Toml Node) where
  parse_named-Holds :
      {C : Type 0} (P : C → Type 0) (key : String)
      (parse_one : List (String × Node) → Result Status C) (node : Node)
      → ((table : List (String × Node)) → Holds P (parse_one table))
      → Holds P (parse_named t key parse_one node)
  unfolding parse_named throw_error_with
  parse_named-Holds P key parse_one node h = elim (Option-cases (t.as_table node)) [
    | inl e ↦ rw (e, Holds, parse_named) refl
    | inr (table, e) ↦ rw (e, Holds, parse_named) (h table)
  ]

  parse_configs-Reads :
      {C : Type 0} (P : C → Type 0) (key : String)
      (parse_one : List (String × Node) → Result Status C) (table : List (String × Node))
      (m : ConfigMap C)
      → ((inner : List (String × Node)) → Holds P (parse_one inner))
      → Each P m
      → Reads P (parse_configs t key parse_one table m)
  unfolding parse_configs
  parse_configs-Reads P key parse_one [] m h p = (p, _)
  parse_configs-Reads P key parse_one ((name, node) ∷ rest) m h p =
      let one : Holds P (parse_named t key parse_one node) =
        parse_named-Holds P key parse_one node h in
      elim (Result-cases (parse_named t key parse_one node)) [
        | inl (c, e) ↦
            rw (e, Reads, parse_configs)
              (parse_configs-Reads P key parse_one rest (try_emplace m name c) h
                (try_emplace-Each P m name c (rw e at one) p))
        | inr (s, e) ↦ rw (e, Reads, parse_configs) (p, rw e at one)
      ]

  parse_section-Reads :
      {C : Type 0} (P : C → Type 0) (root : List (String × Node)) (key : String)
      (parse_one : List (String × Node) → Result Status C) (m : ConfigMap C)
      → ((inner : List (String × Node)) → Holds P (parse_one inner))
      → Each P m
      → Reads P (parse_section t root key parse_one m)
  unfolding parse_section throw_error_with
  parse_section-Reads P root key parse_one m h p = elim (Option-cases (t.at_path root key)) [
    | inl e ↦ rw (e, Reads, parse_section) (p, _)
    | inr (node, e) ↦ elim (Option-cases (t.as_table node)) [
      | inl f ↦ rw (e, f, Reads, parse_section) (p, refl)
      | inr (table, f) ↦
          rw (e, f, Reads, parse_section) (parse_configs-Reads P key parse_one table m h p)
    ]
  ]

  and_then-ReadsUsable :
      (r : Reading Configs) (next : Configs → Reading Configs)
      → ReadsUsable r
      → ((cs : Configs) → AreUsable cs → ReadsUsable (next cs))
      → ReadsUsable (and_then t r next)
  and_then-ReadsUsable (cs, some s) next u h = u
  and_then-ReadsUsable (cs, none) next (u, i) h = h cs u

  parse_logging-ReadsUsable :
      (root : List (String × Node)) (cs : Configs)
      → AreUsable cs
      → ReadsUsable (parse_logging t root cs)
  unfolding parse_logging
  parse_logging-ReadsUsable root cs (a, b, c) =
      let parse_one =
        λ (table : List (String × Node)). each_key t (logging_key t) table default_logging in
      let (e, i) =
        parse_section-Reads UsableLogging root "logging" parse_one cs.logging_configs
          (λ table.
            each_key-Holds t UsableLogging (logging_key t) table default_logging
              (logging_key-Usable t) default_logging-Usable)
          a in
      ((e, b, c), i)

module _ {Node : Type 0} (t : Toml Node) (l : Library) (lawful : IsLawful l) (reserve_size : ℕ)
    (some_size : 1 ≤ reserve_size) where
  parse_clients-ReadsUsable :
      (root : List (String × Node)) (cs : Configs)
      → AreUsable cs
      → ReadsUsable (parse_clients t l reserve_size root cs)
  unfolding parse_clients
  parse_clients-ReadsUsable root cs (a, b, c) =
      let start = default_client reserve_size in
      let parse_one = λ (table : List (String × Node)). each_key t (client_key t l) table start in
      let (e, i) =
        parse_section-Reads t UsableClient root "client" parse_one cs.client_configs
          (λ table.
            each_key-Holds t UsableClient (client_key t l) table start
              (client_key-Usable t l lawful) (default_client-Usable reserve_size some_size))
          b in
      ((a, e, c), i)

  parse_servers-ReadsUsable :
      (root : List (String × Node)) (cs : Configs)
      → AreUsable cs
      → ReadsUsable (parse_servers t l reserve_size root cs)
  unfolding parse_servers
  parse_servers-ReadsUsable root cs (a, b, c) =
      let start = default_server reserve_size in
      let parse_one = λ (table : List (String × Node)). each_key t (server_key t l) table start in
      let (e, i) =
        parse_section-Reads t UsableServer root "server" parse_one cs.server_configs
          (λ table.
            each_key-Holds t UsableServer (server_key t l) table start
              (server_key-Usable t l lawful) (default_server-Usable reserve_size some_size))
          c in
      ((a, b, e), i)

  -- After a parser has read a file, all its configurations are usable if they were before: sizes and
  -- numbers of threads are 1 at least, the times are positive, the jitter is not negative and the URIs
  -- are valid. This holds also when it throws, and then it throws INVALID_ARGUMENT. The default size of
  -- a read buffer is taken to be 1 at least.
  pub parse-ReadsUsable :
      (file_path : String) (root : Result String (List (String × Node))) (cs : Configs)
      → AreUsable cs
      → ReadsUsable (parse t l reserve_size file_path root cs)
  unfolding parse parse_root
  parse-ReadsUsable file_path (err text) cs u = (u, refl)
  parse-ReadsUsable file_path (ok root) cs u =
      let (v, i) =
        and_then-ReadsUsable t
          (and_then t (parse_logging t root cs) (parse_clients t l reserve_size root))
          (parse_servers t l reserve_size root)
          (and_then-ReadsUsable t (parse_logging t root cs) (parse_clients t l reserve_size root)
            (parse_logging-ReadsUsable t root cs u) (parse_clients-ReadsUsable root))
          (parse_servers-ReadsUsable root) in
      (v, explained-IsInvalid t file_path _)
