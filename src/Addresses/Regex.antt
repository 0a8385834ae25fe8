-- ===== src/Addresses/Regex.antt =====
-- The regular expressions of addresses/uri.cpp as sequences of pieces, and the texts that they match
-- with their captures, as the documentation of RE2 has it.
use Prim.Native.Char.{Char}
use cpp_msgpack_rpc.Common.Texts.{append, append-nil}
use cpp_msgpack_rpc.Common.{◌≡◌, refl, ap, ◌∙◌, ◌≢◌, Bool, true, false, ◌&&◌, List, [], ◌∷◌, String}

abbrev pub all : (Char → Bool) → String → Bool
all p String.[] = true
all p (String.◌∷◌ c s) = p c && all p s

-- A literal text, a captured literal text, and a capture of one or more characters of a class.
pub data Piece : Type 0 where
  literal captured : String → Piece
  one_or_more : (Char → Bool) → Piece

abbrev pub Regex : Type 0
Regex = List Piece

-- All of the text is matched, with these captures.
abbrev pub Matches : Regex → String → List String → Type 0
Matches [] t cs = (t ≡ String.[]) × (cs ≡ [])
Matches (literal s ∷ r) t cs = (rest : String) × (t ≡ append s rest) × Matches r rest cs
Matches (captured s ∷ r) t cs =
    (rest : String) × (ds : List String) × (t ≡ append s rest) × (cs ≡ s ∷ ds) × Matches r rest ds
Matches (one_or_more p ∷ r) t cs =
    (w rest : String) × (ds : List String) × (t ≡ append w rest)
    × (cs ≡ w ∷ ds)
    × (w ≢ String.[])
    × (all p w ≡ true)
    × Matches r rest ds

tail : String → String
tail String.[] = String.[]
tail (String.◌∷◌ c s) = s

head_or : Char → String → Char
head_or d String.[] = d
head_or d (String.◌∷◌ c s) = c

-- Equal texts that are not empty have equal parts.
pub cons-inj : (c d : Char) (s t : String) → String.◌∷◌ c s ≡ String.◌∷◌ d t → (c ≡ d) × (s ≡ t)
unfolding tail head_or
cons-inj c d s t e = (ap (head_or c) e, ap tail e)

pub append_inj : (p s t : String) → append p s ≡ append p t → s ≡ t
append_inj String.[] s t e = e
append_inj (String.◌∷◌ c p) s t e =
    let (h, same) = cons-inj c c (append p s) (append p t) e in append_inj p s t same

pub and_true : (a b : Bool) → (a && b) ≡ true → (a ≡ true) × (b ≡ true)
and_true true b e = (refl, e)
and_true false b e = cc

-- A run of characters of a class ends at the first character that is not of it.
pub run_unique :
    (p : Char → Bool) (x : Char) (v w s t : String)
    → p x ≡ false
    → all p v ≡ true
    → all p w ≡ true
    → append v (String.◌∷◌ x s) ≡ append w (String.◌∷◌ x t)
    → (v ≡ w) × (s ≡ t)
run_unique p x String.[] String.[] s t no_x hv hw e =
    let (h, same) = cons-inj x x s t e in (refl, same)
run_unique p x String.[] (String.◌∷◌ d w) s t no_x hv hw e =
    let (h, same) = cons-inj x d s (append w (String.◌∷◌ x t)) e in
    let (now, later) = and_true (p d) (all p w) hw in let wrong : p x ≡ true = rw h now in cc
run_unique p x (String.◌∷◌ c v) String.[] s t no_x hv hw e =
    let (h, same) = cons-inj c x (append v (String.◌∷◌ x s)) t e in
    let (now, later) = and_true (p c) (all p v) hv in let wrong : p x ≡ true = rw⁻¹ h now in cc
run_unique p x (String.◌∷◌ c v) (String.◌∷◌ d w) s t no_x hv hw e =
    let (h, same) = cons-inj c d (append v (String.◌∷◌ x s)) (append w (String.◌∷◌ x t)) e in
    let (now, later) = and_true (p c) (all p v) hv in
    let (now_w, later_w) = and_true (p d) (all p w) hw in
    let (vw, st) = run_unique p x v w s t no_x later later_w same in (rw (h, vw) refl, st)

-- A run cannot begin with a character that is not of its class.
pub wrong_start :
    (p : Char → Bool) (x : Char) (r : Regex) (t : String) (cs : List String)
    → p x ≡ false
    → Matches (one_or_more p ∷ r) (String.◌∷◌ x t) cs
    → ⊥
wrong_start p x r t cs no_x (String.[], rest, ds, e, c, some_w, hw, m) = some_w refl
wrong_start p x r t cs no_x (String.◌∷◌ d w, rest, ds, e, c, some_w, hw, m) =
    let (h, same) = cons-inj x d t (append w rest) e in
    let (now, later) = and_true (p d) (all p w) hw in let wrong : p x ≡ true = rw h now in cc

-- A run, a text that begins with a character not of its class, and a run to the end have one match.
pub two_runs :
    (p q : Char → Bool) (x : Char) (s v d : String) (cs : List String)
    → p x ≡ false
    → all p v ≡ true
    → Matches
        (one_or_more p ∷ literal (String.◌∷◌ x s) ∷ one_or_more q ∷ [])
        (append v (append (String.◌∷◌ x s) d))
        cs
    → cs ≡ v ∷ d ∷ []
two_runs p q x s v d cs no_x hv
      (w, rest, ds, e, c, some_w, hw, (rest2, e2, (u, rest3, ds3, e3, c3, some_u, hu, (end, c4)))) =
    let whole : append v (String.◌∷◌ x (append s d)) ≡ append w (String.◌∷◌ x (append s rest2)) =
      e ∙ rw e2 refl in
    let (vw, same) = run_unique p x v w (append s d) (append s rest2) no_x hv hw whole in
    let last : d ≡ u = append_inj s d rest2 same ∙ e3 ∙ rw end (append-nil u) in
    c ∙ rw (c3, c4, vw, last) refl
