-- ===== src/Util/FormatMsgpackObject.antt =====
-- util/format_msgpack_object_to.h, util/copy_string_to_iterator.h: the text of an object of the
-- msgpack library, written through an output iterator. fmt is a parameter.
pub mod Text
pub mod Writing
use Prim.Native.Char.{Char}
use cpp_msgpack_rpc.Common.{
  ℕ, zero, suc, ℤ, Bool, true, false, List, [], ◌∷◌, ltb, if◌then◌else◌, Result, ok, err, ◌>>=◌,
  String,
}
use cpp_msgpack_rpc.Common.Texts.{append}
use cpp_msgpack_rpc.Status.{Status, status, invalid_argument}

-- `msgpack::object` with numbers of type F for floating points. `invalid` is any other type.
mutual
  pub data Object (F : Type 0) : Type 0 where
    nil : Object F
    boolean : Bool → Object F
    positive_integer : ℕ → Object F
    negative_integer : ℤ → Object F
    float32 float64 : F → Object F
    str : String → Object F
    bin : List ℕ → Object F
    array : Objects F → Object F
    map : Pairs F → Object F
    ext : ℤ → List ℕ → Object F
    invalid : ℕ → Object F

  pub data Objects (F : Type 0) : Type 0 where
    no_objects : Objects F
    cons : Object F → Objects F → Objects F

  pub data Pairs (F : Type 0) : Type 0 where
    no_pairs : Pairs F
    pair : (key val : Object F) → Pairs F → Pairs F

-- What an output iterator does: `*iterator = c` and `++iterator`.
pub record OutputIterator (S : Type 0) : Type 0 where
  pub assign : Char → S → S
  pub advance : S → S

-- The texts that fmt makes of numbers: `{}` and `{:02X}`.
pub record Fmt (F : Type 0) : Type 0 where
  pub unsigned : ℕ → String
  pub signed : ℤ → String
  pub floating : F → String
  pub hex : ℕ → String

module _ {F S : Type 0} (fmt : Fmt F) (iterator : OutputIterator S) where
  abbrev pub put : Char → S → S
  put c s = iterator.advance (iterator.assign c s)

  -- `std::copy`, which is what fmt::format_to does with its text too.
  unfoldable pub copy_string_to_iterator : String → S → S
  copy_string_to_iterator String.[] s = s
  copy_string_to_iterator (String.◌∷◌ c t) s = copy_string_to_iterator t (put c s)

  -- The loop over bytes.
  unfoldable pub format_bytes : List ℕ → S → S
  unfolding copy_string_to_iterator
  format_bytes [] s = s
  format_bytes (b ∷ bs) s = format_bytes bs (copy_string_to_iterator (fmt.hex b) s)

  -- Two assignments without an increment.
  abbrev pub two : Char → Char → S → S
  two c d s = iterator.assign d (iterator.assign c s)

  -- What is written before the element i.
  unfoldable pub separate : ℕ → S → S
  separate i s = if ltb 0 i then two "," " " s else s

  unfoldable pub format_bool : Bool → S → S
  unfolding copy_string_to_iterator
  format_bool true s = copy_string_to_iterator "true" s
  format_bool false s = copy_string_to_iterator "false" s

  unfoldable pub format_str : String → S → S
  unfolding copy_string_to_iterator
  format_str t s = put "\"" (copy_string_to_iterator t (put "\"" s))

  unfoldable pub format_bin : List ℕ → S → S
  unfolding copy_string_to_iterator format_bytes
  format_bin bs s = put ")" (format_bytes bs (copy_string_to_iterator "bin(" s))

  unfoldable pub format_ext : ℤ → List ℕ → S → S
  unfolding copy_string_to_iterator format_bytes
  format_ext type bs s = put ")" (
      format_bytes bs (
        copy_string_to_iterator ", "
          (copy_string_to_iterator (fmt.signed type) (copy_string_to_iterator "ext(" s))))

  unfoldable mutual
    unfolding copy_string_to_iterator separate format_bool format_str format_bin format_ext

    pub format_msgpack_object : Object F → S → Result Status S
    format_msgpack_object nil s = ok (copy_string_to_iterator "null" s)
    format_msgpack_object (boolean b) s = ok (format_bool b s)
    format_msgpack_object (positive_integer n) s = ok (copy_string_to_iterator (fmt.unsigned n) s)
    format_msgpack_object (negative_integer n) s = ok (copy_string_to_iterator (fmt.signed n) s)
    format_msgpack_object (float32 x) s = ok (copy_string_to_iterator (fmt.floating x) s)
    format_msgpack_object (float64 x) s = ok (copy_string_to_iterator (fmt.floating x) s)
    format_msgpack_object (str t) s = ok (format_str t s)
    format_msgpack_object (bin bs) s = ok (format_bin bs s)
    format_msgpack_object (array xs) s = format_array 0 xs (put "[" s) >>= λ t. ok (put "]" t)
    format_msgpack_object (map ps) s = format_map 0 ps (put "{" s) >>= λ t. ok (put "}" t)
    format_msgpack_object (ext type bs) s = ok (format_ext type bs s)
    format_msgpack_object (invalid type) s = err (status invalid_argument "Invalid message type.")

    -- The loops, at the index i.
    pub format_array : ℕ → Objects F → S → Result Status S
    format_array i no_objects s = ok s
    format_array i (cons x xs) s =
        format_msgpack_object x (separate i s) >>= format_array (suc i) xs

    pub format_map : ℕ → Pairs F → S → Result Status S
    format_map i no_pairs s = ok s
    format_map i (pair key val ps) s = format_msgpack_object key (separate i s) >>= λ t.
        format_msgpack_object val (two ":" " " t) >>= format_map (suc i) ps

-- `std::back_inserter` of a text, for which the increment does nothing, and
-- `format_msgpack_object_to_string`.
abbrev pub back_inserter : OutputIterator String
back_inserter = record { assign = λ c s. append s (String.◌∷◌ c String.[]); advance = λ s. s }

unfoldable pub format_msgpack_object_to_string :
    {F : Type 0} → Fmt F → Object F → Result Status String
unfolding format_msgpack_object
format_msgpack_object_to_string fmt object =
    format_msgpack_object fmt back_inserter object String.[]
