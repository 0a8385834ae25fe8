-- ===== src/Util/FormatMsgpackObject/Text.antt =====
-- format_msgpack_object_to_string.cpp: what the text of an object is.
use cpp_msgpack_rpc.Common.{
  ℕ, zero, suc, ℤ, ◌≡◌, refl, ap, sym, ◌∙◌, Bool, true, false, List, [], ◌∷◌, ltb, if◌then◌else◌,
  Result, ok, err, ◌>>=◌, String, arith,
}
use cpp_msgpack_rpc.Common.Texts.{append, append_assoc, append-nil}
use cpp_msgpack_rpc.Status.{Status, status, invalid_argument}
use cpp_msgpack_rpc.Util.FormatMsgpackObject.{
  Object, nil, boolean, positive_integer, negative_integer, float32, float64, str, bin, array, map,
  ext, invalid, Objects, no_objects, cons, Pairs, no_pairs, pair, Fmt, copy_string_to_iterator,
  format_bytes, separate, format_bool, format_str, format_bin, format_ext, back_inserter,
}

-- Texts with a text between each two.
abbrev pub join : String → List String → String
join between [] = String.[]
join between (t ∷ []) = t
join between (t ∷ u ∷ us) = append t (append between (join between (u ∷ us)))

abbrev pub concat : List String → String
concat [] = String.[]
concat (t ∷ ts) = append t (concat ts)

abbrev pub hex_digits : {F : Type 0} → Fmt F → List ℕ → List String
hex_digits fmt [] = []
hex_digits fmt (b ∷ bs) = fmt.hex b ∷ hex_digits fmt bs

abbrev pub bool_text : Bool → String
bool_text true = "true"
bool_text false = "false"

-- The text of an object: arrays and maps have their elements with commas between them.
unfoldable mutual
  pub text : {F : Type 0} → Fmt F → Object F → Result Status String
  text fmt nil = ok "null"
  text fmt (boolean b) = ok (bool_text b)
  text fmt (positive_integer n) = ok (fmt.unsigned n)
  text fmt (negative_integer n) = ok (fmt.signed n)
  text fmt (float32 x) = ok (fmt.floating x)
  text fmt (float64 x) = ok (fmt.floating x)
  text fmt (str t) = ok (concat ("\"" ∷ t ∷ "\"" ∷ []))
  text fmt (bin bs) = ok (concat ("bin(" ∷ concat (hex_digits fmt bs) ∷ ")" ∷ []))
  text fmt (array xs) = texts fmt xs >>= λ ts. ok (concat ("[" ∷ join ", " ts ∷ "]" ∷ []))
  text fmt (map ps) = entries fmt ps >>= λ ts. ok (concat ("{" ∷ join ", " ts ∷ "}" ∷ []))
  text fmt (ext type bs) =
      ok (concat ("ext(" ∷ fmt.signed type ∷ ", " ∷ concat (hex_digits fmt bs) ∷ ")" ∷ []))
  text fmt (invalid type) = err (status invalid_argument "Invalid message type.")

  pub texts : {F : Type 0} → Fmt F → Objects F → Result Status (List String)
  texts fmt no_objects = ok []
  texts fmt (cons x xs) = text fmt x >>= λ t. texts fmt xs >>= λ ts. ok (t ∷ ts)

  pub entries : {F : Type 0} → Fmt F → Pairs F → Result Status (List String)
  entries fmt no_pairs = ok []
  entries fmt (pair key val ps) = text fmt key >>= λ k.
      text fmt val >>= λ v. entries fmt ps >>= λ ts. ok (concat (k ∷ ": " ∷ v ∷ []) ∷ ts)

-- The elements from the index i on as the loops write them.
abbrev pub joined : ℕ → List String → String
joined i [] = String.[]
joined i (t ∷ ts) = append (if ltb 0 i then ", " else String.[]) (append t (joined (suc i) ts))

later_index : (i : ℕ) → ltb 0 (suc i) ≡ true
later_index i = ground arith

joined_later :
    (i : ℕ) (t : String) (ts : List String)
    → joined (suc i) (t ∷ ts) ≡ append ", " (join ", " (t ∷ ts))
joined_later i t [] = rw (later_index i) (ap (append ", ") (append-nil t))
joined_later i t (u ∷ us) =
    rw (later_index i) (ap (λ r. append ", " (append t r)) (joined_later (suc i) u us))

pub joined-join : (ts : List String) → joined 0 ts ≡ join ", " ts
joined-join [] = refl
joined-join (t ∷ []) = append-nil t
joined-join (t ∷ u ∷ us) = ap (append t) (joined_later 0 u us)

module _ {F : Type 0} (fmt : Fmt F) where
  pub copy_text : (t s : String) → copy_string_to_iterator fmt back_inserter t s ≡ append s t
  unfolding copy_string_to_iterator
  copy_text String.[] s = sym (append-nil s)
  copy_text (String.◌∷◌ c t) s =
      copy_text t (append s (String.◌∷◌ c String.[])) ∙ append_assoc s (String.◌∷◌ c String.[]) t

  bytes_text :
      (bs : List ℕ) (s : String)
      → format_bytes fmt back_inserter bs s ≡ append s (concat (hex_digits fmt bs))
  unfolding format_bytes
  bytes_text [] s = sym (append-nil s)
  bytes_text (b ∷ bs) s =
      ap (format_bytes fmt back_inserter bs) (copy_text (fmt.hex b) s)
      ∙ bytes_text bs (append s (fmt.hex b))
      ∙ append_assoc s (fmt.hex b) (concat (hex_digits fmt bs))

  pub separate_text :
      (i : ℕ) (s : String)
      → separate fmt back_inserter i s ≡ append s (if ltb 0 i then ", " else String.[])
  unfolding separate
  separate_text zero s = sym (append-nil s)
  separate_text (suc i) s = rw (later_index i, separate) (append_assoc s "," " ")

  pub str_text :
      (t s : String) → format_str fmt back_inserter t s ≡ append s (concat ("\"" ∷ t ∷ "\"" ∷ []))
  unfolding format_str
  str_text t s = simp (copy_text, append_assoc)

  pub bin_text :
      (bs : List ℕ) (s : String)
      → format_bin fmt back_inserter bs s
        ≡ append s (concat ("bin(" ∷ concat (hex_digits fmt bs) ∷ ")" ∷ []))
  unfolding format_bin
  bin_text bs s = simp (bytes_text, append_assoc)

  pub ext_text :
      (type : ℤ) (bs : List ℕ) (s : String)
      → format_ext fmt back_inserter type bs s
        ≡ append s
            (concat ("ext(" ∷ fmt.signed type ∷ ", " ∷ concat (hex_digits fmt bs) ∷ ")" ∷ []))
  unfolding format_ext
  ext_text type bs s = simp (copy_text, bytes_text, append_assoc)

  pub bool_written :
      (b : Bool) (s : String) → format_bool fmt back_inserter b s ≡ append s (bool_text b)
  unfolding format_bool
  bool_written true s = copy_text "true" s
  bool_written false s = copy_text "false" s
