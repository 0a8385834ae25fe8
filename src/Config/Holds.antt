-- ===== src/Config/Holds.antt =====
-- config/toml: what holds of the configurations that the parts of the parser return, when they throw
-- nothing but INVALID_ARGUMENT.
use cpp_msgpack_rpc.Common.{
  ◌≡◌, refl, Bool, true, false, Option, none, some, List, [], ◌∷◌, if◌then◌else◌, Result, ok, err,
  ◌>>=◌, String,
}
use cpp_msgpack_rpc.Status.{Status, code, invalid_argument}
use cpp_msgpack_rpc.Config.Settings.{checked}
use cpp_msgpack_rpc.Config.Toml.{
  Toml, throw_error, throw_error_with, rethrown, parse_value, each_key, parse_child, each_uri,
  parse_uris,
}

abbrev pub Holds : {C : Type 0} → (C → Type 0) → Result Status C → Type 0
Holds P (ok c) = P c
Holds P (err s) = code s ≡ invalid_argument

pub checked-Holds :
    {C : Type 0} (P : C → Type 0) (b : Bool) (text : String) (c : C)
    → (b ≡ true → P c)
    → Holds P (checked b text c)
checked-Holds P true text c h = h refl
checked-Holds P false text c h = refl

pub if-Holds :
    {C : Type 0} (P : C → Type 0) (b : Bool) (x y : Result Status C)
    → Holds P x
    → Holds P y
    → Holds P (if b then x else y)
if-Holds P true x y h k = h
if-Holds P false x y h k = k

pub >>=-Holds :
    {B C : Type 0} (Q : B → Type 0) (P : C → Type 0) (r : Result Status B) (f : B → Result Status C)
    → Holds Q r
    → ((b : B) → Q b → Holds P (f b))
    → Holds P (r >>= f)
>>=-Holds Q P (ok b) f h next = next b h
>>=-Holds Q P (err s) f h next = h

module _ {Node : Type 0} (t : Toml Node) where
  rethrown-Holds :
      {C : Type 0} (P : C → Type 0) (node : Node) (key : String) (r : Result Status C)
      → Holds P r
      → Holds P (rethrown t node key r)
  unfolding rethrown throw_error_with
  rethrown-Holds P node key (ok c) h = h
  rethrown-Holds P node key (err s) h = refl

  pub parse_value-Holds :
      {A C : Type 0} (P : C → Type 0) (node : Node) (key : String) (o : Option A)
      (set : A → C → Result Status C) (c : C)
      → ((v : A) → Holds P (set v c))
      → Holds P (parse_value t node key o set c)
  unfolding parse_value throw_error
  parse_value-Holds P node key none set c h = refl
  parse_value-Holds P node key (some v) set c h = rethrown-Holds P node key (set v c) (h v)

  pub each_key-Holds :
      {C : Type 0} (P : C → Type 0) (step : String → Node → C → Result Status C)
      (table : List (String × Node)) (c : C)
      → ((key : String) (node : Node) (d : C) → P d → Holds P (step key node d))
      → P c
      → Holds P (each_key t step table c)
  unfolding each_key
  each_key-Holds P step [] c h p = p
  each_key-Holds P step ((key, node) ∷ rest) c h p =
      >>=-Holds P P (step key node c) (each_key t step rest) (h key node c p)
        (λ d q. each_key-Holds P step rest d h q)

  pub parse_child-Holds :
      {C D : Type 0} (Q : D → Type 0) (P : C → Type 0) (node : Node) (key : String)
      (parse : List (String × Node) → Result Status D) (put : D → C)
      → ((table : List (String × Node)) → Holds Q (parse table))
      → ((d : D) → Q d → P (put d))
      → Holds P (parse_child t node key parse put)
  unfolding parse_child throw_error
  parse_child-Holds Q P node key parse put h next =
      elim (t.as_table node)
        as (λ o. Holds P (elim o [
          | none ↦ err (throw_error t node key)
          | some table ↦ parse table >>= λ d. ok (put d)
        ])) [
          | none ↦ refl
          | some table ↦ >>=-Holds Q P (parse table) (λ d. ok (put d)) (h table) next
        ]

  each_uri-Holds :
      {C : Type 0} (P : C → Type 0) (add : String → C → Result Status C) (nodes : List Node) (c : C)
      → ((text : String) (d : C) → P d → Holds P (add text d))
      → P c
      → Holds P (each_uri t add nodes c)
  unfolding each_uri throw_error
  each_uri-Holds P add [] c h p = p
  each_uri-Holds P add (node ∷ rest) c h p =
      elim (t.as_string node)
        as (λ o. Holds P (elim o [
          | none ↦ err (throw_error t node "uris")
          | some text ↦ rethrown t node "uris" (add text c) >>= each_uri t add rest
        ])) [
          | none ↦ refl
          | some text ↦
              >>=-Holds P P (rethrown t node "uris" (add text c)) (each_uri t add rest)
                (rethrown-Holds P node "uris" (add text c) (h text c p))
                (λ d q. each_uri-Holds P add rest d h q)
        ]

  pub parse_uris-Holds :
      {C : Type 0} (P : C → Type 0) (node : Node) (add : String → C → Result Status C) (c : C)
      → ((text : String) (d : C) → P d → Holds P (add text d))
      → P c
      → Holds P (parse_uris t node add c)
  unfolding parse_uris throw_error
  parse_uris-Holds P node add c h p =
      elim (t.as_array node)
        as (λ o. Holds P (elim o [
          | none ↦ err (throw_error t node "uris")
          | some nodes ↦ each_uri t add nodes c
        ])) [ none ↦ refl | some nodes ↦ each_uri-Holds P add nodes c h p ]
