-- ===== src/Tests/Matcher.antt =====
-- A matcher of the regular expressions of uri.cpp that tries the longest runs first.
use Prim.Native.Char.{Char, code}
use text.Mathlib.TextEquality.{Char-path}
use cpp_msgpack_rpc.Common.Texts.{append}
use cpp_msgpack_rpc.Common.{
  ◌/◌, ◌%◌, ◌≡◌, ◌≢◌, refl, sym, inl, inr, Bool, true, false, Bool-cases, Option-cases, Option,
  none, some, List, [], ◌∷◌, ◌==◌, ==_refl, if◌then◌else◌, String, arith,
}
use cpp_msgpack_rpc.Addresses.Regex.{all, Regex, literal, captured, one_or_more, Matches, and_true}
use cpp_msgpack_rpc.Addresses.Uri.{Library, IsLawful}
use cpp_msgpack_rpc.Tests.Decimal.{
  digit_char, value, print, to_uint16, small_only_fits, digit_char-digit, value-print,
}

abbrev skip : Bool → Option String → Option String
skip true o = o
skip false o = none

abbrev strip : String → String → Option String
strip String.[] t = some t
strip (String.◌∷◌ c s) String.[] = none
strip (String.◌∷◌ c s) (String.◌∷◌ d t) = skip (code c == code d) (strip s t)

abbrev one : Char → Option (List String) → Option (List String)
one c none = none
one c (some cs) = some (String.◌∷◌ c String.[] ∷ cs)

abbrev extend : Char → Option (List String) → Option (List String) → Option (List String)
extend c (some (w ∷ cs)) o = some (String.◌∷◌ c w ∷ cs)
extend c (some []) o = one c o
extend c none o = one c o

abbrev run : (Char → Bool) → (String → Option (List String)) → String → Option (List String)
run p k String.[] = none
run p k (String.◌∷◌ c t) = let longer = run p k t in if p c then extend c longer (k t) else none

abbrev ends : String → Option (List String)
ends String.[] = some []
ends (String.◌∷◌ c t) = none

abbrev after : Option String → (String → Option (List String)) → Option (List String)
after none k = none
after (some t) k = k t

abbrev with_capture : String → Option (List String) → Option (List String)
with_capture s none = none
with_capture s (some cs) = some (s ∷ cs)

abbrev pub full_match : Regex → String → Option (List String)
full_match [] t = ends t
full_match (literal s ∷ r) t = after (strip s t) (full_match r)
full_match (captured s ∷ r) t = with_capture s (after (strip s t) (full_match r))
full_match (one_or_more p ∷ r) t = run p (full_match r) t

strip-append : (s t : String) → strip s (append s t) ≡ some t
strip-append String.[] t = refl
strip-append (String.◌∷◌ c s) t = rw (==_refl (code c)) (strip-append s t)

strip_sound : (s t u : String) → strip s t ≡ some u → t ≡ append s u
strip_sound String.[] t u e = cc
strip_sound (String.◌∷◌ c s) String.[] u e = cc
strip_sound (String.◌∷◌ c s) (String.◌∷◌ d t) u e = elim (Bool-cases (code c == code d)) [
  | inl same ↦
      let numbers : code c ≡ code d = ground (arith, same) in
      rw (sym (Char-path c d numbers), strip_sound s t u (rw same at e)) refl
  | inr other ↦ let wrong : none ≡ some u = rw other at e in cc
]

abbrev Run : (Char → Bool) → (String → Option (List String)) → String → List String → Type 0
Run p k t cs =
    (w rest : String) × (ds : List String) × (t ≡ append w rest)
    × (cs ≡ w ∷ ds)
    × (w ≢ String.[])
    × (all p w ≡ true)
    × (k rest ≡ some ds)

cons-ne : (c : Char) (s : String) → String.◌∷◌ c s ≢ String.[]
cons-ne c s e = cc

single :
    (p : Char → Bool) (k : String → Option (List String)) (c : Char) (t : String) (cs : List String)
    (o : Option (List String))
    → p c ≡ true
    → o ≡ k t
    → one c o ≡ some cs
    → Run p k (String.◌∷◌ c t) cs
single p k c t cs none h e f = cc
single p k c t cs (some ds) h e f =
    (String.◌∷◌ c String.[], t, ds, refl, cc, cons-ne c String.[], rw h refl, sym e)

extend_sound :
    (p : Char → Bool) (k : String → Option (List String)) (c : Char) (t : String) (cs : List String)
    (o : Option (List String))
    → p c ≡ true
    → ((ds : List String) → o ≡ some ds → Run p k t ds)
    → extend c o (k t) ≡ some cs
    → Run p k (String.◌∷◌ c t) cs
extend_sound p k c t cs none h found e = single p k c t cs (k t) h refl e
extend_sound p k c t cs (some []) h found e = single p k c t cs (k t) h refl e
extend_sound p k c t cs (some (v ∷ vs)) h found e =
    let (w, rest, ds, parts, caps, some_w, hw, later) = found (v ∷ vs) refl in
    (String.◌∷◌ c w, rest, ds, rw parts refl, cc, cons-ne c w, rw (h, hw) refl, later)

run_sound :
    (p : Char → Bool) (k : String → Option (List String)) (t : String) (cs : List String)
    → run p k t ≡ some cs
    → Run p k t cs
run_sound p k String.[] cs e = cc
run_sound p k (String.◌∷◌ c t) cs e = elim (Bool-cases (p c)) [
  | inl h ↦ extend_sound p k c t cs (run p k t) h (λ ds f. run_sound p k t ds f) (rw h at e)
  | inr h ↦ let wrong : none ≡ some cs = rw h at e in cc
]

one_some : (c : Char) (o : Option (List String)) → o ≢ none → one c o ≢ none
one_some c none h e = h refl
one_some c (some cs) h e = cc

extend_short : (c : Char) (o short : Option (List String)) → short ≢ none → extend c o short ≢ none
extend_short c none short h e = one_some c short h e
extend_short c (some []) short h e = one_some c short h e
extend_short c (some (w ∷ ws)) short h e = cc

extend_long :
    (p : Char → Bool) (k : String → Option (List String)) (c : Char) (t : String)
    (o short : Option (List String))
    → ((ds : List String) → o ≡ some ds → Run p k t ds)
    → o ≢ none
    → extend c o short ≢ none
extend_long p k c t none short found h e = h refl
extend_long p k c t (some []) short found h e =
    let (w, rest, ds, parts, caps, some_w, hw, later) = found [] refl in cc
extend_long p k c t (some (w ∷ ws)) short found h e = cc

run_complete :
    (p : Char → Bool) (k : String → Option (List String)) (c : Char) (w rest : String)
    → p c ≡ true
    → all p w ≡ true
    → k rest ≢ none
    → run p k (String.◌∷◌ c (append w rest)) ≢ none
run_complete p k c String.[] rest now later found e =
    extend_short c (run p k rest) (k rest) found (rw now at e)
run_complete p k c (String.◌∷◌ d w) rest now later found e =
    let t = String.◌∷◌ d (append w rest) in
    let (now_d, later_d) = and_true (p d) (all p w) later in
    extend_long p k c t (run p k t) (k t) (λ ds f. run_sound p k t ds f)
      (run_complete p k d w rest now_d later_d found) (rw now at e)

run_complete_text :
    (p : Char → Bool) (k : String → Option (List String)) (w rest : String)
    → w ≢ String.[]
    → all p w ≡ true
    → k rest ≢ none
    → run p k (append w rest) ≢ none
run_complete_text p k String.[] rest some_w hw found e = some_w refl
run_complete_text p k (String.◌∷◌ c w) rest some_w hw found e =
    let (now, later) = and_true (p c) (all p w) hw in run_complete p k c w rest now later found e

ends_sound : (t : String) (cs : List String) → ends t ≡ some cs → (t ≡ String.[]) × (cs ≡ [])
ends_sound String.[] cs e = (refl, cc)
ends_sound (String.◌∷◌ c t) cs e = cc

full_match_sound :
    (r : Regex) (t : String) (cs : List String) → full_match r t ≡ some cs → Matches r t cs
full_match_sound [] t cs e = ends_sound t cs e
full_match_sound (literal s ∷ r) t cs e = elim (Option-cases (strip s t)) [
  | inl f ↦ let wrong : none ≡ some cs = rw f at e in cc
  | inr (rest, f) ↦ (rest, strip_sound s t rest f, full_match_sound r rest cs (rw f at e))
]
full_match_sound (captured s ∷ r) t cs e = elim (Option-cases (strip s t)) [
  | inl f ↦ let wrong : none ≡ some cs = rw f at e in cc
  | inr (rest, f) ↦ elim (Option-cases (full_match r rest)) [
    | inl g ↦ let wrong : none ≡ some cs = rw (f, g) at e in cc
    | inr (ds, g) ↦
        let found : some (s ∷ ds) ≡ some cs = rw (f, g) at e in
        (rest, ds, strip_sound s t rest f, cc, full_match_sound r rest ds g)
  ]
]
full_match_sound (one_or_more p ∷ r) t cs e =
    let (w, rest, ds, parts, caps, some_w, hw, later) = run_sound p (full_match r) t cs e in
    (w, rest, ds, parts, caps, some_w, hw, full_match_sound r rest ds later)

with_capture_some : (s : String) (o : Option (List String)) → o ≢ none → with_capture s o ≢ none
with_capture_some s none h e = h refl
with_capture_some s (some cs) h e = cc

full_match_complete :
    (r : Regex) (t : String) (cs : List String) → Matches r t cs → full_match r t ≢ none
full_match_complete [] t cs (e, f) g = let wrong : some [] ≡ none = rw e at g in cc
full_match_complete (literal s ∷ r) t cs (rest, e, m) g =
    full_match_complete r rest cs m (rw (e, strip-append) at g)
full_match_complete (captured s ∷ r) t cs (rest, ds, e, f, m) g =
    with_capture_some s (full_match r rest) (full_match_complete r rest ds m)
      (rw (e, strip-append) at g)
full_match_complete (one_or_more p ∷ r) t cs (w, rest, ds, e, f, some_w, hw, m) g =
    run_complete_text p (full_match r) w rest some_w hw (full_match_complete r rest ds m)
      (rw e at g)

abbrev pub library : Library
library = record { full_match = full_match; to_uint16 = to_uint16; print = print }

pub library-IsLawful : IsLawful library
library-IsLawful = record {
  match_sound = full_match_sound;
  match_complete = full_match_complete;
  fits = λ w p e. small_only_fits (value 0 w) p e;
  print_digits = λ p.
      rw
        (
          digit_char-digit (p / 10000 % 10),
          digit_char-digit (p / 1000 % 10),
          digit_char-digit (p / 100 % 10),
          digit_char-digit (p / 10 % 10),
          digit_char-digit (p % 10),
        )
        refl;
  print_some = λ p. cons-ne (digit_char (p / 10000 % 10)) _;
  to_uint16-print = λ p small. rw (value-print p (omega (arith, small))) (ground (arith, small));
}
