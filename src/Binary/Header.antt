-- ===== src/Binary/Header.antt =====
-- sharable_binary_header.h. `size_t` has 64 bits. The allocator is not under the repository:
-- `malloc n` is the fresh memory of n bytes, its contents not specified, or `none` for null.
use cpp_msgpack_rpc.Common.{
  ℕ, zero, suc, ◌+◌, ◌-◌, ◌*◌, ◌%◌, ◌^◌, Bool, true, false, Option, none, some, List, ◌++◌, length,
  drop, leb, if◌then◌else◌, Result, ok, err,
}

abbrev pub size_t_mod : ℕ
size_t_mod = 2 ^ 64

-- What is thrown when memory runs out, or when the loop below has no fuel left.
pub data MemoryError : Type 0 where
  bad_alloc stuck : MemoryError

-- A header with the bytes behind it. The count is read only while it is enabled.
pub record Header : Type 0 where
  pub total_memory_size : ℕ
  pub binary_size : ℕ
  pub binary_capacity : ℕ
  pub reference_count : ℕ
  pub is_reference_count_enabled : Bool
  pub memory : List ℕ

-- `sizeof(SharableBinaryHeader)` and the allocator.
pub record Allocator : Type 0 where
  pub header_size : ℕ
  pub malloc : ℕ → Option (List ℕ)

-- `realloc` to a larger block keeps the old bytes; those behind them are not specified.
unfoldable pub realloc : Allocator → List ℕ → ℕ → Option (List ℕ)
realloc a old n = elim (a.malloc n) [
  | none ↦ none
  | some fresh ↦ some (old ++ drop (length old) (drop a.header_size fresh))
]

unfoldable pub allocate_sharable_binary : Allocator → ℕ → Result MemoryError Header
allocate_sharable_binary a binary_size =
    let total = (a.header_size + binary_size) % size_t_mod in
    elim (a.malloc total) [
      | none ↦ err bad_alloc
      | some raw ↦ ok (record {
        total_memory_size = total;
        binary_size = binary_size;
        binary_capacity = binary_size;
        reference_count = 0;
        is_reference_count_enabled = false;
        memory = drop a.header_size raw;
      })
    ]

abbrev pub initial_memory_size : ℕ
initial_memory_size = 128

unfoldable pub allocate_shared_binary : Allocator → Result MemoryError Header
allocate_shared_binary a = elim (a.malloc initial_memory_size) [
  | none ↦ err bad_alloc
  | some raw ↦ ok (record {
    total_memory_size = initial_memory_size;
    binary_size = 0;
    binary_capacity = initial_memory_size - a.header_size;
    reference_count = 0;
    is_reference_count_enabled = false;
    memory = drop a.header_size raw;
  })
]

-- The loop that doubles the capacity; `<<= 1U` drops the bit that leaves the word.
unfoldable pub grow : ℕ → ℕ → ℕ → Option ℕ
grow zero capacity required = none
grow (suc fuel) capacity required =
    let doubled = (capacity * 2) % size_t_mod in
    let rest = grow fuel doubled required in if leb required doubled then some doubled else rest

-- A capacity above 0 has left the word after 64 doublings.
abbrev pub grow_fuel : ℕ
grow_fuel = 64

unfoldable pub expand_to : Allocator → Header → Option ℕ → Result MemoryError Header
expand_to a h none = err stuck
expand_to a h (some capacity) =
    let total = (a.header_size + capacity) % size_t_mod in
    elim (realloc a h.memory total) [
      | none ↦ err bad_alloc
      | some memory ↦ ok (record h {
        total_memory_size = total;
        binary_capacity = total - a.header_size;
        memory = memory;
      })
    ]

unfoldable pub expand_sharable_binary : Allocator → Header → ℕ → Result MemoryError Header
unfolding expand_to
expand_sharable_binary a h required = expand_to a h (grow grow_fuel h.binary_capacity required)

unfoldable pub enable_reference_count : Header → Header
enable_reference_count h = record h { reference_count = 1; is_reference_count_enabled = true }
