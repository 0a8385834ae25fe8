-- ===== src/Tests/Text.antt =====
-- Texts as lists of numbers and back.
use Prim.Native.Nat.{ℕ, Ordering, compare}
use Prim.Native.Char.{Char, char, code}
use Prim.Native.String.{String}
use cpp_msgpack_rpc.Common.{◌≡◌, refl, Option, none, some, List, [], ◌∷◌}

-- The three comparisons of a scalar value.
abbrev IsLt : Ordering → Type 0
IsLt Ordering.lt = Unit
IsLt Ordering.eq = ⊥
IsLt Ordering.gt = ⊥

abbrev BothLt : Ordering → Ordering → Type 0
BothLt Ordering.lt o = IsLt o
BothLt Ordering.eq _ = ⊥
BothLt Ordering.gt _ = ⊥

abbrev Scalar : Ordering → Ordering → Ordering → Type 0
Scalar Ordering.lt _ _ = Unit
Scalar Ordering.eq o p = BothLt o p
Scalar Ordering.gt o p = BothLt o p

abbrev decide_lt : (o : Ordering) → Option (IsLt o)
decide_lt Ordering.lt = some _
decide_lt Ordering.eq = none
decide_lt Ordering.gt = none

abbrev decide_both : (o p : Ordering) → Option (BothLt o p)
decide_both Ordering.lt o = decide_lt o
decide_both Ordering.eq _ = none
decide_both Ordering.gt _ = none

abbrev decide : (o p q : Ordering) → Option (Scalar o p q)
decide Ordering.lt _ _ = some _
decide Ordering.eq o p = decide_both o p
decide Ordering.gt o p = decide_both o p

abbrev decided : {A : Type 0} → Option A → (A → Char) → Option Char
decided none f = none
decided (some a) f = some (f a)

abbrev pub char_of : ℕ → Option Char
char_of n = decided (decide (compare n 55296) (compare 57343 n) (compare n 1114112)) (λ p. char n p)

decide_lt-some : (o : Ordering) (x : IsLt o) → decide_lt o ≡ some x
decide_lt-some Ordering.lt x = refl
decide_lt-some Ordering.eq x = absurd x
decide_lt-some Ordering.gt x = absurd x

decide_both-some : (o p : Ordering) (x : BothLt o p) → decide_both o p ≡ some x
decide_both-some Ordering.lt o x = decide_lt-some o x
decide_both-some Ordering.eq o x = absurd x
decide_both-some Ordering.gt o x = absurd x

decide-some : (o p q : Ordering) (x : Scalar o p q) → decide o p q ≡ some x
decide-some Ordering.lt p q x = refl
decide-some Ordering.eq p q x = decide_both-some p q x
decide-some Ordering.gt p q x = decide_both-some p q x

char_of-code : (c : Char) → char_of (code c) ≡ some c
char_of-code (char n p) =
    rw (decide-some (compare n 55296) (compare 57343 n) (compare n 1114112) p) refl

abbrev pub codes : String → List ℕ
codes String.[] = []
codes (String.◌∷◌ c s) = code c ∷ codes s

abbrev prepend : Option Char → Option String → Option String
prepend (some c) (some s) = some (String.◌∷◌ c s)
prepend _ _ = none

abbrev pub text_of : List ℕ → Option String
text_of [] = some String.[]
text_of (n ∷ ns) = prepend (char_of n) (text_of ns)

pub text_of-codes : (s : String) → text_of (codes s) ≡ some s
text_of-codes String.[] = refl
text_of-codes (String.◌∷◌ c s) = rw (char_of-code c, text_of-codes s) refl
