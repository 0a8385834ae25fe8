-- ===== src/Binary/Buffer.antt =====
-- serialization_buffer.cpp: bytes appended to a block that grows.
pub mod Append
use cpp_msgpack_rpc.Common.{
  ℕ, ◌+◌, ◌%◌, List, ◌++◌, [], ◌∷◌, length, take, drop, ltb, if◌then◌else◌, Result, ok, ◌>>=◌,
}
use cpp_msgpack_rpc.Binary.Header.{
  Allocator, Header, MemoryError, size_t_mod, allocate_shared_binary, expand_sharable_binary,
  enable_reference_count,
}

-- The constructor.
unfoldable pub new_buffer : Allocator → Result MemoryError Header
unfolding allocate_shared_binary
new_buffer a = allocate_shared_binary a

-- `memcpy` to an offset of the block.
abbrev pub copy_to : List ℕ → ℕ → List ℕ → List ℕ
copy_to memory offset bytes = take offset memory ++ (bytes ++ drop (offset + length bytes) memory)

append_bytes : Header → List ℕ → Header
append_bytes h bytes = record h {
  binary_size = (h.binary_size + length bytes) % size_t_mod;
  memory = copy_to h.memory h.binary_size bytes;
}

pub write : Allocator → Header → List ℕ → Result MemoryError Header
write a h bytes =
    let required = (h.binary_size + length bytes) % size_t_mod in
    if ltb h.binary_capacity required
    then (expand_sharable_binary a h required >>= λ g. ok (append_bytes g bytes))
    else ok (append_bytes h bytes)

-- The calls of `write` that a packer makes.
pub write_all : Allocator → Header → List (List ℕ) → Result MemoryError Header
write_all a h [] = ok h
write_all a h (bytes ∷ rest) = do g ← write a h bytes; write_all a g rest

-- `release`: the block is handed over as a message, with one reference.
unfoldable pub release : Header → Header
unfolding enable_reference_count
release h = enable_reference_count h

-- `SerializedMessage::size` and the bytes that its `data` points to.
abbrev pub size : Header → ℕ
size h = h.binary_size

abbrev pub bytes_of : Header → List ℕ
bytes_of h = take h.binary_size h.memory
