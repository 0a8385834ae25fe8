-- ===== src/Util/FormatMsgpackObject/Writing.antt =====
-- format_msgpack_object_to.h: what is written through `std::back_inserter`.
use Prim.Native.Char.{Char}
use cpp_msgpack_rpc.Common.{
  ℕ, suc, ◌≡◌, refl, ap, sym, ◌∙◌, List, [], ◌∷◌, Result, ok, err, ◌>>=◌, String,
}
use cpp_msgpack_rpc.Common.Texts.{append, append_assoc, append-nil}
use cpp_msgpack_rpc.Status.{Status}
use cpp_msgpack_rpc.Util.FormatMsgpackObject.{
  Object, nil, boolean, positive_integer, negative_integer, float32, float64, str, bin, array, map,
  ext, invalid, Objects, no_objects, cons, Pairs, no_pairs, pair, Fmt, separate,
  format_msgpack_object, format_array, format_map, back_inserter, two,
  format_msgpack_object_to_string,
}
use cpp_msgpack_rpc.Util.FormatMsgpackObject.Text.{
  join, concat, text, texts, entries, joined, joined-join, copy_text, separate_text, str_text,
  bin_text, ext_text, bool_written,
}

module _ {F : Type 0} (fmt : Fmt F) where
  -- An array or a map between its brackets.
  closed :
      (open_bracket close_bracket : Char) (s : String) (r : Result Status (List String))
      → ((r >>= λ ts. ok (append (append s (String.◌∷◌ open_bracket String.[])) (joined 0 ts)))
          >>= λ t. ok (append t (String.◌∷◌ close_bracket String.[])))
        ≡ ((r >>= λ ts. ok (
              concat (
                String.◌∷◌ open_bracket String.[]
                ∷ join ", " ts
                ∷ String.◌∷◌ close_bracket String.[]
                ∷ [])))
            >>= λ t. ok (append s t))
  closed a b s (err x) = refl
  closed a b s (ok ts) = ap ok (simp (joined-join, append_assoc))

  -- The element i and the rest.
  one_more :
      (i : ℕ) (s t : String) (r : Result Status (List String))
      → (r >>= λ ts. ok (append (append (separate fmt back_inserter i s) t) (joined (suc i) ts)))
        ≡ ((r >>= λ ts. ok (t ∷ ts)) >>= λ ts. ok (append s (joined i ts)))
  one_more i s t (err x) = refl
  one_more i s t (ok ts) = ap ok (simp (separate_text, append_assoc))

  element_text :
      (i : ℕ) (xs : Objects F) (s : String) (r : Result Status String)
      → ((u : String)
          → format_array fmt back_inserter (suc i) xs u
            ≡ (texts fmt xs >>= λ ts. ok (append u (joined (suc i) ts))))
      → ((r >>= λ t. ok (append (separate fmt back_inserter i s) t))
          >>= format_array fmt back_inserter (suc i) xs)
        ≡ ((r >>= λ t. texts fmt xs >>= λ ts. ok (t ∷ ts)) >>= λ ts. ok (append s (joined i ts)))
  element_text i xs s (err x) ih = refl
  element_text i xs s (ok t) ih =
      ih (append (separate fmt back_inserter i s) t) ∙ one_more i s t (texts fmt xs)

  entry_text :
      (s k v : String)
      → append (append (append (append s k) ":") " ") v ≡ append s (concat (k ∷ ": " ∷ v ∷ []))
  entry_text s k v = simp (append_assoc, append-nil)

  value_text :
      (i : ℕ) (ps : Pairs F) (s k : String) (r : Result Status String)
      → ((u : String)
          → format_map fmt back_inserter (suc i) ps u
            ≡ (entries fmt ps >>= λ ts. ok (append u (joined (suc i) ts))))
      → ((r >>= λ v.
            ok (append (append (append (append (separate fmt back_inserter i s) k) ":") " ") v))
          >>= format_map fmt back_inserter (suc i) ps)
        ≡ ((r >>= λ v. entries fmt ps >>= λ ts. ok (concat (k ∷ ": " ∷ v ∷ []) ∷ ts)) >>= λ ts.
            ok (append s (joined i ts)))
  value_text i ps s k (err x) ih = refl
  value_text i ps s k (ok v) ih =
      ap (format_map fmt back_inserter (suc i) ps) (entry_text (separate fmt back_inserter i s) k v)
      ∙ ih (append (separate fmt back_inserter i s) (concat (k ∷ ": " ∷ v ∷ [])))
      ∙ one_more i s (concat (k ∷ ": " ∷ v ∷ [])) (entries fmt ps)

  pair_text :
      (i : ℕ) (val : Object F) (ps : Pairs F) (s : String) (r : Result Status String)
      → ((u : String)
          → format_msgpack_object fmt back_inserter val u ≡ (text fmt val >>= λ v. ok (append u v)))
      → ((u : String)
          → format_map fmt back_inserter (suc i) ps u
            ≡ (entries fmt ps >>= λ ts. ok (append u (joined (suc i) ts))))
      → ((r >>= λ k. ok (append (separate fmt back_inserter i s) k)) >>= λ t.
          format_msgpack_object fmt back_inserter val (two fmt back_inserter ":" " " t)
          >>= format_map fmt back_inserter (suc i) ps)
        ≡ ((r >>= λ k.
              text fmt val >>= λ v. entries fmt ps >>= λ ts. ok (concat (k ∷ ": " ∷ v ∷ []) ∷ ts))
            >>= λ ts. ok (append s (joined i ts)))
  pair_text i val ps s (err x) ihv ihp = refl
  pair_text i val ps s (ok k) ihv ihp =
      ap (λ r. r >>= format_map fmt back_inserter (suc i) ps)
        (ihv (append (append (append (separate fmt back_inserter i s) k) ":") " "))
      ∙ value_text i ps s k (text fmt val) ihp

  mutual
    unfolding format_msgpack_object text

    -- What is appended to the output is the text of the object, or the same exception is thrown.
    pub format_msgpack_object-text :
        (o : Object F) (s : String)
        → format_msgpack_object fmt back_inserter o s ≡ (text fmt o >>= λ t. ok (append s t))
    format_msgpack_object-text nil s = ap ok (copy_text fmt "null" s)
    format_msgpack_object-text (boolean b) s = ap ok (bool_written fmt b s)
    format_msgpack_object-text (positive_integer n) s = ap ok (copy_text fmt (fmt.unsigned n) s)
    format_msgpack_object-text (negative_integer n) s = ap ok (copy_text fmt (fmt.signed n) s)
    format_msgpack_object-text (float32 x) s = ap ok (copy_text fmt (fmt.floating x) s)
    format_msgpack_object-text (float64 x) s = ap ok (copy_text fmt (fmt.floating x) s)
    format_msgpack_object-text (str t) s = ap ok (str_text fmt t s)
    format_msgpack_object-text (bin bs) s = ap ok (bin_text fmt bs s)
    format_msgpack_object-text (array xs) s =
        ap (λ r. r >>= λ t. ok (append t "]")) (format_array-texts 0 xs (append s "["))
        ∙ closed "[" "]" s (texts fmt xs)
    format_msgpack_object-text (map ps) s =
        ap (λ r. r >>= λ t. ok (append t "}")) (format_map-entries 0 ps (append s "{"))
        ∙ closed "{" "}" s (entries fmt ps)
    format_msgpack_object-text (ext type bs) s = ap ok (ext_text fmt type bs s)
    format_msgpack_object-text (invalid type) s = refl

    pub format_array-texts :
        (i : ℕ) (xs : Objects F) (s : String)
        → format_array fmt back_inserter i xs s
          ≡ (texts fmt xs >>= λ ts. ok (append s (joined i ts)))
    format_array-texts i no_objects s = ap ok (sym (append-nil s))
    format_array-texts i (cons x xs) s =
        ap (λ r. r >>= format_array fmt back_inserter (suc i) xs)
          (format_msgpack_object-text x (separate fmt back_inserter i s))
        ∙ element_text i xs s (text fmt x) (λ u. format_array-texts (suc i) xs u)

    pub format_map-entries :
        (i : ℕ) (ps : Pairs F) (s : String)
        → format_map fmt back_inserter i ps s
          ≡ (entries fmt ps >>= λ ts. ok (append s (joined i ts)))
    format_map-entries i no_pairs s = ap ok (sym (append-nil s))
    format_map-entries i (pair key val ps) s =
        ap
          (λ r. r >>= λ t.
            format_msgpack_object fmt back_inserter val (two fmt back_inserter ":" " " t)
            >>= format_map fmt back_inserter (suc i) ps)
          (format_msgpack_object-text key (separate fmt back_inserter i s))
        ∙ pair_text i val ps s (text fmt key) (λ u. format_msgpack_object-text val u)
            (λ u. format_map-entries (suc i) ps u)

same_result : (r : Result Status String) → (r >>= λ t. ok (append String.[] t)) ≡ r
same_result (ok t) = refl
same_result (err x) = refl

-- An object is formatted to its text, in which the elements of arrays and maps stand in order with
-- commas between them, and an object with another type anywhere in it is refused.
pub format_msgpack_object_to_string-text :
    {F : Type 0} (fmt : Fmt F) (o : Object F) → format_msgpack_object_to_string fmt o ≡ text fmt o
unfolding format_msgpack_object_to_string
format_msgpack_object_to_string-text fmt o =
    format_msgpack_object-text fmt o String.[] ∙ same_result (text fmt o)
