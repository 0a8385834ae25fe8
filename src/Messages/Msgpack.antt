-- ===== src/Messages/Msgpack.antt =====
-- The msgpack library, which is not under the repository: objects, the packer and the unpacker.
use cpp_msgpack_rpc.Common.{
  ℕ, ◌^◌, ◌<◌, ◌≡◌, Bool, true, Option, some, String, List, ◌++◌, map, length, concat,
}

-- What `unpacker::next` finds at the start of the bytes that it has been given.
pub data Unpacked (Object : Type 0) : Type 0 where
  -- More bytes are needed.
  incomplete : Unpacked Object
  -- `unpack_error` is thrown.
  broken : Unpacked Object
  -- An object, and the bytes behind it.
  unpacked : Object → List ℕ → Unpacked Object

pub record Msgpack : Type 1 where
  -- `msgpack::object`.
  pub Object : Type 0
  -- The array that it holds, `none` if it is of another type.
  pub elements : Object → Option (List Object)
  -- `as<T>`, `none` where `type_error` is thrown.
  pub as_uint64 : Object → Option ℕ
  pub as_uint32 : Object → Option ℕ
  pub as_string : Object → Option String
  pub is_nil : Object → Bool
  -- The object of a value.
  pub of_uint : ℕ → Object
  pub of_string : String → Object
  pub of_array : List Object → Object
  pub nil : Object
  -- What `packer::pack` and `packer::pack_array` write, call by call.
  pub pack : Object → List (List ℕ)
  pub pack_array : ℕ → List (List ℕ)
  pub unpack : List ℕ → Unpacked Object

-- The bytes of a value.
abbrev pub bytes : (M : Msgpack) → M.Object → List ℕ
bytes M o = concat (M.pack o)

-- What the documentation of the library promises, as far as the repository relies on it.
pub record IsMsgpack (M : Msgpack) : Type 0 where
  -- A value is read back at the type that it was made at.
  pub elements-of_array : (xs : List M.Object) → M.elements (M.of_array xs) ≡ some xs
  pub as_uint64-of_uint : (n : ℕ) → n < 2 ^ 64 → M.as_uint64 (M.of_uint n) ≡ some n
  pub as_uint32-of_uint : (n : ℕ) → n < 2 ^ 32 → M.as_uint32 (M.of_uint n) ≡ some n
  pub as_string-of_string : (s : String) → M.as_string (M.of_string s) ≡ some s
  pub is_nil-nil : M.is_nil M.nil ≡ true
  -- An array is a header with its elements behind it, and the unpacker finds where it ends.
  pub unpack-array :
      (xs : List M.Object) (rest : List ℕ)
      → M.unpack ((concat (M.pack_array (length xs)) ++ concat (map (bytes M) xs)) ++ rest)
        ≡ unpacked (M.of_array xs) rest
  -- An answer other than `incomplete` does not change when more bytes come in.
  pub unpack-extend :
      (bs more rest : List ℕ) (o : M.Object)
      → M.unpack bs ≡ unpacked o rest
      → M.unpack (bs ++ more) ≡ unpacked o (rest ++ more)
  pub broken-extend : (bs more : List ℕ) → M.unpack bs ≡ broken → M.unpack (bs ++ more) ≡ broken
  -- An object takes at least one byte.
  pub unpack-shrinks :
      (bs rest : List ℕ) (o : M.Object) → M.unpack bs ≡ unpacked o rest → length rest < length bs
