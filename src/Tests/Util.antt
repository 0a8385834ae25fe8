-- ===== src/Tests/Util.antt =====
-- The pool of shared objects and the text of objects at concrete values.
use cpp_msgpack_rpc.Common.{
  String, pos, negsuc, ℕ, ◌≡◌, refl, Bool-cases, inl, inr, none, some, [], ◌∷◌, ◌==◌, if◌then◌else◌,
  Result, ok, arith,
}
use cpp_msgpack_rpc.Util.SharedObjects.{Pool, create, Thrown}
use cpp_msgpack_rpc.Util.SharedObjects.Handles.{Store, Operation, copy_assigns, step}
use cpp_msgpack_rpc.Util.SharedObjects.Creation.{Creates, create-Creates}
use cpp_msgpack_rpc.Util.SharedObjects.Counts.{AreFew, IsShared}
use cpp_msgpack_rpc.Common.Texts.{append}
use cpp_msgpack_rpc.Util.FormatMsgpackObject.{
  Object, nil, positive_integer, str, array, map, no_objects, cons, no_pairs, pair, Fmt,
  OutputIterator, format_msgpack_object, format_msgpack_object_to_string, copy_string_to_iterator,
  separate,
}
use cpp_msgpack_rpc.Util.FormatMsgpackObject.Text.{text}
use cpp_msgpack_rpc.Util.FormatMsgpackObject.Writing.{format_msgpack_object_to_string-text}
use cpp_msgpack_rpc.Util.SharedObjects.Steps.{step-IsShared}

-- Of three buffers the first is unused, and the search begins at the second.
abbrev two_used : Pool ℕ
two_used = record {
  buffers = λ b.
      if b == 0
      then record { reference_count = negsuc 0; buffer = none }
      else record { reference_count = pos 1; buffer = some b };
  num_buffers = 3;
  next_buffer_index = 1;
}

create-Creates_example :
    (r : Result (Thrown ℕ) ℕ × Pool ℕ) × (create two_used (ok 7) ≡ some r)
    × Creates two_used (ok 7) r
create-Creates_example = create-Creates two_used (ok 7) (omega arith)

-- One object with a handle beside an empty one.
abbrev one_held : Store ℕ
one_held = record {
  pool = record {
    buffers = λ b.
        if 0 == b
        then record { reference_count = pos 1; buffer = some 7 }
        else record { reference_count = negsuc 0; buffer = none };
    num_buffers = 2;
    next_buffer_index = 1;
  };
  handles = some 0 ∷ none ∷ [];
}

one_held-IsShared : IsShared one_held
one_held-IsShared = record {
  ready = omega arith;
  counted = λ b. elim (Bool-cases (0 == b)) [
    | inl same ↦ rw same (refl, 7, refl)
    | inr other ↦ rw other (refl, refl)
  ];
}

one_held-AreFew : AreFew one_held
one_held-AreFew = λ b. ground arith

abbrev shares : Operation ℕ ℕ
shares = copy_assigns 1 0

step-IsShared_example : (t : Store ℕ) × (step one_held shares ≡ some t) × IsShared t
step-IsShared_example =
    step-IsShared one_held shares one_held-AreFew one_held-IsShared ((none, refl), (some 0, refl))

abbrev fmt : Fmt ℕ
fmt = record {
  unsigned = λ n. if n == 1 then "1" else "2";
  signed = λ n. "-1";
  floating = λ x. "0.5";
  hex = λ b. "FF";
}

abbrev object : Object ℕ
object = array (cons (positive_integer 1) (cons (map (pair (str "a") nil no_pairs)) no_objects))

format_msgpack_object_to_string-text_example :
    format_msgpack_object_to_string fmt object ≡ text fmt object
format_msgpack_object_to_string-text_example = format_msgpack_object_to_string-text fmt object

object_text : text fmt object ≡ ok "[1, {\"a\": null}]"
unfolding text
object_text = refl

-- An iterator that points into an array: what is there before the increment is the last that was
-- assigned.
abbrev pointer : OutputIterator (String × String)
pointer = record {
  assign = λ c (done, now). (done, String.◌∷◌ c String.[]);
  advance = λ (done, now). (append done now, String.[]);
}

commas_lost :
    format_msgpack_object fmt pointer
      (array (cons (positive_integer 1) (cons (positive_integer 2) no_objects)))
      (String.[], String.[])
    ≡ ok ("[12]", String.[])
unfolding format_msgpack_object copy_string_to_iterator separate
commas_lost = refl
