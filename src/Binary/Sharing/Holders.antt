-- ===== src/Binary/Sharing/Holders.antt =====
-- serialized_message.cpp: how many messages of a list hold a block.
use cpp_msgpack_rpc.Common.{
  ℕ, zero, suc, ◌+◌, ◌≤◌, ◌≡◌, refl, ◌∙◌, false, Bool-cases, Option, none, some, List, [], ◌∷◌,
  ◌++◌, length, get_elem?, set, ◌==◌, if◌then◌else◌, inl, inr, arith,
}

abbrev pub is_held : ℕ → Option ℕ → ℕ
is_held b none = 0
is_held b (some c) = if c == b then 1 else 0

abbrev pub holders : ℕ → List (Option ℕ) → ℕ
holders b [] = 0
holders b (m ∷ ms) = is_held b m + holders b ms

pub holders-set :
    (b i : ℕ) (v o : Option ℕ) (ms : List (Option ℕ))
    → get_elem? ms i ≡ some o
    → holders b (set ms i v) + is_held b o ≡ holders b ms + is_held b v
holders-set b i v o [] e = cc
holders-set b zero v o (m ∷ ms) e = ground arith
holders-set b (suc i) v o (m ∷ ms) e = omega (arith, holders-set b i v o ms e)

pub holders-append :
    (b : ℕ) (ms ns : List (Option ℕ)) → holders b (ms ++ ns) ≡ holders b ms + holders b ns
holders-append b [] ns = omega arith
holders-append b (m ∷ ms) ns = omega (arith, holders-append b ms ns)

pub get_elem?-holders :
    (b i : ℕ) (ms : List (Option ℕ)) → get_elem? ms i ≡ some (some b) → 1 ≤ holders b ms
get_elem?-holders b i [] e = cc
get_elem?-holders b zero (m ∷ ms) e = ground arith
get_elem?-holders b (suc i) (m ∷ ms) e = omega (arith, get_elem?-holders b i ms e)

pub get_elem?-set :
    (i : ℕ) (v o : Option ℕ) (ms : List (Option ℕ))
    → get_elem? ms i ≡ some o
    → get_elem? (set ms i v) i ≡ some v
get_elem?-set i v o [] e = cc
get_elem?-set zero v o (m ∷ ms) e = refl
get_elem?-set (suc i) v o (m ∷ ms) e = get_elem?-set i v o ms e

pub get_elem?-set_other :
    (i j : ℕ) (v : Option ℕ) (ms : List (Option ℕ))
    → (i == j) ≡ false
    → get_elem? (set ms i v) j ≡ get_elem? ms j
get_elem?-set_other i j v [] h = refl
get_elem?-set_other zero zero v (m ∷ ms) h = ground arith
get_elem?-set_other zero (suc j) v (m ∷ ms) h = refl
get_elem?-set_other (suc i) zero v (m ∷ ms) h = refl
get_elem?-set_other (suc i) (suc j) v (m ∷ ms) h = get_elem?-set_other i j v ms (ground arith)

pub get_elem?-append :
    (ms : List (Option ℕ)) (v : Option ℕ) → get_elem? (ms ++ v ∷ []) (length ms) ≡ some v
get_elem?-append [] v = refl
get_elem?-append (m ∷ ms) v = get_elem?-append ms v

pub elem-set :
    (i j : ℕ) (m n : Option ℕ) (ms : List (Option ℕ))
    → get_elem? ms i ≡ some m
    → get_elem? ms j ≡ some n
    → get_elem? (set ms i n) j ≡ some n
elem-set i j m n ms ei ej = elim (Bool-cases (i == j)) [
  | inl same ↦ let e : i ≡ j = ground (arith, same) in rw⁻¹ e (get_elem?-set i n m ms ei)
  | inr other ↦ get_elem?-set_other i j n ms other ∙ ej
]
