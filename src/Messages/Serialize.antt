-- ===== src/Messages/Serialize.antt =====
-- message_serializer.h: a message is packed into a buffer, whose block becomes the message.
use cpp_msgpack_rpc.Common.{ℕ, String, List, [], ◌∷◌, ◌++◌, Result, ok, ◌>>=◌}
use cpp_msgpack_rpc.Binary.Header.{Allocator, Header, MemoryError}
use cpp_msgpack_rpc.Binary.Buffer.{new_buffer, write_all, release}
use cpp_msgpack_rpc.Messages.Msgpack.{Msgpack}

-- The calls of `write` that a serializer makes, on a new buffer.
unfoldable pub fill : Allocator → List (List ℕ) → Result MemoryError Header
fill a chunks = do h ← new_buffer a; g ← write_all a h chunks; ok (release g)

-- The calls of `write` for some values, packed one after the other.
abbrev pub pack_all : (M : Msgpack) → List M.Object → List (List ℕ)
pack_all M [] = []
pack_all M (x ∷ xs) = M.pack x ++ pack_all M xs

module _ (M : Msgpack) (a : Allocator) where
  open M use {Object, of_uint, of_string, of_array, nil, pack_array}

  unfoldable pub serialize_request : String → ℕ → List Object → Result MemoryError Header
  serialize_request method_name message_id parameters = fill a (
      pack_array 4
      ++ pack_all M
          (of_uint 0 ∷ of_uint message_id ∷ of_string method_name ∷ of_array parameters ∷ []))

  unfoldable pub serialize_successful_response : ℕ → Object → Result MemoryError Header
  serialize_successful_response request_id result =
      fill a (pack_array 4 ++ pack_all M (of_uint 1 ∷ of_uint request_id ∷ nil ∷ result ∷ []))

  unfoldable pub serialize_error_response : ℕ → Object → Result MemoryError Header
  serialize_error_response request_id error =
      fill a (pack_array 4 ++ pack_all M (of_uint 1 ∷ of_uint request_id ∷ error ∷ nil ∷ []))

  unfoldable pub serialize_notification : String → List Object → Result MemoryError Header
  serialize_notification method_name parameters =
      fill a
        (pack_array 3 ++ pack_all M (of_uint 2 ∷ of_string method_name ∷ of_array parameters ∷ []))
