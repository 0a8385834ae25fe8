-- ===== src/Binary/Sharing.antt =====
-- serialized_message.cpp, with the reference counts of sharable_binary_header.h: messages that share
-- their blocks. A message object is a place in the list; `none` is the null pointer of one that was
-- moved from or destroyed. An operation answers `none` where it would use a null pointer or a block
-- that has been freed.
pub mod Holders
pub mod Counts
use cpp_msgpack_rpc.Common.{
  ℕ, zero, suc, ◌+◌, ◌-◌, ◌%◌, ◌^◌, Bool, true, false, Option, none, some, List, [], ◌∷◌, ◌++◌,
  length, get_elem?, set, ◌==◌, if◌then◌else◌,
}

pub record Store : Type 0 where
  pub messages : List (Option ℕ)
  -- An `std::atomic<int>` for each block, as its 32 bits.
  pub counts : ℕ → ℕ
  pub is_freed : ℕ → Bool
  pub num_blocks : ℕ

abbrev pub at : {A : Type 0} → (ℕ → A) → ℕ → A → ℕ → A
at f b v c = if b == c then v else f c

-- `fetch_add(1)` and `fetch_sub(1)`, which wrap.
abbrev pub increased : ℕ → ℕ
increased c = (c + 1) % 2 ^ 32

abbrev pub decreased : ℕ → ℕ
decreased c = (c + (2 ^ 32 - 1)) % 2 ^ 32

-- `add_reference_count_of_sharable_binary`, and the message at i gets the block.
unfoldable pub put : Store → ℕ → ℕ → Option Store
put s i b =
    if s.is_freed b
    then none
    else some (record s {
      messages = set s.messages i (some b);
      counts = at s.counts b (increased (s.counts b));
    })

-- `decrease_reference_count_of_sharable_binary`, and the message at i lets the block go.
unfoldable pub let_go : Store → ℕ → ℕ → Option Store
let_go s i b =
    if s.is_freed b
    then none
    else some (record s {
      messages = set s.messages i none;
      counts = at s.counts b (decreased (s.counts b));
      is_freed = at s.is_freed b (s.counts b == 1);
    })

-- The constructor from bytes.
unfoldable pub construct : Store → Store
construct s = record {
  messages = s.messages ++ some s.num_blocks ∷ [];
  counts = at s.counts s.num_blocks 1;
  is_freed = s.is_freed;
  num_blocks = suc s.num_blocks;
}

-- The pointer of a message that is used without a test for null.
unfoldable pub block_of : Store → ℕ → Option ℕ
block_of s i = elim (get_elem? s.messages i) [ none ↦ none | some m ↦ m ]

-- The copy constructor, whose new object is the last in the list.
unfoldable pub copy : Store → ℕ → Option Store
unfolding block_of
copy s i = elim (block_of s i) [
  | none ↦ none
  | some b ↦ put (record s { messages = s.messages ++ none ∷ [] }) (length s.messages) b
]

-- The destructor, and the release of the old block by an assignment.
unfoldable pub destroy : Store → ℕ → Option Store
unfolding block_of
destroy s i = elim (block_of s i) [ none ↦ some s | some b ↦ let_go s i b ]

unfoldable pub assign_from : Option Store → ℕ → ℕ → Option Store
unfolding block_of
assign_from none i j = none
assign_from (some s) i j = elim (block_of s j) [ none ↦ none | some b ↦ put s i b ]

-- The copy assignment.
unfoldable pub copy_assign : Store → ℕ → ℕ → Option Store
unfolding assign_from
copy_assign s i j = if i == j then some s else assign_from (destroy s i) i j

-- `std::exchange` with null: the move constructor, whose new object is the last in the list.
unfoldable pub move : Store → ℕ → Option Store
move s i = elim (get_elem? s.messages i) [
  | none ↦ none
  | some m ↦ some (record s { messages = set s.messages i none ++ m ∷ [] })
]

unfoldable pub swapped : Store → ℕ → ℕ → Option (Option ℕ) → Option (Option ℕ) → Option Store
swapped s i j (some m) (some n) = some (record s { messages = set (set s.messages i n) j m })
swapped s i j _ _ = none

-- The move assignment swaps the pointers.
unfoldable pub move_assign : Store → ℕ → ℕ → Option Store
unfolding swapped
move_assign s i j = swapped s i j (get_elem? s.messages i) (get_elem? s.messages j)
