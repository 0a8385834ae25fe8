-- ===== src/Binary/Buffer/Append.antt =====
-- serialization_buffer.cpp, sharable_binary_header.h: the bytes in a buffer after some writes.
use cpp_msgpack_rpc.Common.{
  ℕ, zero, suc, ◌+◌, ◌-◌, ◌%◌, ◌^◌, ◌≤◌, ◌<◌, ◌≡◌, refl, sym, ap, ◌∙◌, false, Option, some, List,
  [], ◌∷◌, ◌++◌, length, take, drop, concat, length-append, length-take, length-drop, take-append,
  append_assoc, append-nil, ltb, Bool-cases, inl, inr, Result, ok, ◌>>=◌, arith,
}
use cpp_msgpack_rpc.Binary.Header.{
  Allocator, Header, MemoryError, size_t_mod, grow, grow_fuel, realloc, expand_to,
  expand_sharable_binary, allocate_shared_binary, initial_memory_size,
}
use cpp_msgpack_rpc.Binary.Growth.{Grown, grow-Grown}
use cpp_msgpack_rpc.Binary.Buffer.{copy_to, append_bytes, write, write_all, new_buffer, bytes_of}

-- Every request for memory is met.
abbrev pub AllocatorWorks : Allocator → Type 0
AllocatorWorks a = (n : ℕ) → (m : List ℕ) × (a.malloc n ≡ some m) × (length m ≡ n)

-- A buffer that is being filled.
pub record IsFilling (a : Allocator) (h : Header) : Type 0 where
  pub sized : length h.memory ≡ h.binary_capacity
  pub within : h.binary_size ≤ h.binary_capacity
  pub some_room : 0 < h.binary_capacity
  pub in_word : h.binary_capacity ≤ 2 ^ 63
  pub total : h.total_memory_size ≡ a.header_size + h.binary_capacity
  pub unshared : h.is_reference_count_enabled ≡ false

take-copy_to :
    (memory bytes : List ℕ) (offset : ℕ)
    → offset + length bytes ≤ length memory
    → take (offset + length bytes) (copy_to memory offset bytes) ≡ take offset memory ++ bytes
take-copy_to memory bytes offset h =
    rw (← append_assoc (take offset memory) bytes (drop (offset + length bytes) memory)) (
      take-append (take offset memory ++ bytes) _ _ (
        omega (
          arith,
          length-append (take offset memory) bytes,
          length-take offset memory (omega arith),
        )))

length-copy_to :
    (memory bytes : List ℕ) (offset : ℕ)
    → offset + length bytes ≤ length memory
    → length (copy_to memory offset bytes) ≡ length memory
length-copy_to memory bytes offset h = omega (
  arith,
  length-append (take offset memory) (bytes ++ drop (offset + length bytes) memory),
  length-append bytes (drop (offset + length bytes) memory),
  length-take offset memory (omega arith),
  length-drop (offset + length bytes) memory,
)

abbrev pub Wrote : Allocator → List ℕ → List ℕ → Result MemoryError Header → Type 0
Wrote a before bytes r =
    (g : Header) × (r ≡ ok g)
    × IsFilling a g
    × (bytes_of g ≡ before ++ bytes)
    × (g.binary_size ≡ length before + length bytes)

module _ (a : Allocator) (small : a.header_size < initial_memory_size)
    (works : AllocatorWorks a) where
  append_bytes-Wrote :
      (h : Header) (bytes : List ℕ)
      → IsFilling a h
      → h.binary_size + length bytes ≤ h.binary_capacity
      → Wrote a (bytes_of h) bytes (ok (append_bytes h bytes))
  unfolding append_bytes
  append_bytes-Wrote h bytes v fits =
      let fits' : h.binary_size + length bytes ≤ length h.memory = omega (arith, v) in
      let same : (h.binary_size + length bytes) % size_t_mod ≡ h.binary_size + length bytes =
        omega (arith, v) in
      (
        append_bytes h bytes,
        refl,
        record {
          sized = omega (arith, length-copy_to h.memory bytes h.binary_size fits', v);
          within = omega (arith, v);
          some_room = v.some_room;
          in_word = v.in_word;
          total = v.total;
          unshared = v.unshared;
        },
        rw same (take-copy_to h.memory bytes h.binary_size fits'),
        omega (arith, v, length-take h.binary_size h.memory (omega (arith, v))),
      )

  take-realloc : (old fresh : List ℕ) (n : ℕ) → n ≤ length old → take n (old ++ fresh) ≡ take n old
  take-realloc old fresh zero h = refl
  take-realloc [] fresh (suc n) h = absurd (omega arith)
  take-realloc (x ∷ old) fresh (suc n) h = ap (λ l. x ∷ l) (take-realloc old fresh n (omega arith))

  abbrev Expanded : Header → ℕ → Result MemoryError Header → Type 0
  Expanded h required r =
      (g : Header) × (r ≡ ok g)
      × IsFilling a g
      × (required ≤ g.binary_capacity)
      × (bytes_of g ≡ bytes_of h)
      × (g.binary_size ≡ h.binary_size)

  expand_to-Expanded :
      (h : Header) (required : ℕ) (r : Option ℕ)
      → IsFilling a h
      → h.binary_capacity < required
      → required ≤ 2 ^ 62
      → Grown h.binary_capacity required r
      → Expanded h required (expand_to a h r)
  unfolding expand_to realloc
  expand_to-Expanded h required r v lt top (c, e, low, twice, high) =
      let (raw, me, ml) = works (a.header_size + c) in
      let same : (a.header_size + c) % size_t_mod ≡ a.header_size + c = omega (arith, small) in
      let grown : List ℕ = h.memory ++ drop (length h.memory) (drop a.header_size raw) in
      (
        record h {
          total_memory_size = a.header_size + c;
          binary_capacity = a.header_size + c - a.header_size;
          memory = grown;
        },
        rw (e, expand_to, same, realloc, me, same),
        record {
          sized = omega (
            arith,
            v,
            length-append h.memory (drop (length h.memory) (drop a.header_size raw)),
            length-drop (length h.memory) (drop a.header_size raw),
            length-drop a.header_size raw,
          );
          within = omega (arith, v);
          some_room = omega arith;
          in_word = omega arith;
          total = omega arith;
          unshared = v.unshared;
        },
        omega arith,
        take-realloc h.memory _ h.binary_size (omega (arith, v)),
        refl,
      )

  expand-Expanded :
      (h : Header) (required : ℕ)
      → IsFilling a h
      → h.binary_capacity < required
      → required ≤ 2 ^ 62
      → Expanded h required (expand_sharable_binary a h required)
  unfolding expand_sharable_binary
  expand-Expanded h required v lt top =
      expand_to-Expanded h required (grow grow_fuel h.binary_capacity required) v lt top (
        grow-Grown grow_fuel h.binary_capacity required v.some_room lt (omega arith)
          (omega (arith, v)))

  -- A write that fits in 2^62 bytes succeeds, keeps the buffer well formed and appends its bytes.
  pub write-Wrote :
      (h : Header) (bytes : List ℕ)
      → IsFilling a h
      → h.binary_size + length bytes ≤ 2 ^ 62
      → Wrote a (bytes_of h) bytes (write a h bytes)
  unfolding write
  write-Wrote h bytes v top =
      let same : (h.binary_size + length bytes) % size_t_mod ≡ h.binary_size + length bytes =
        omega arith in
      elim (Bool-cases (ltb h.binary_capacity (h.binary_size + length bytes))) [
        | inl full ↦
            let (g, e, w, room, kept, sz) =
              expand-Expanded h (h.binary_size + length bytes) v (ground arith) top in
            rw (same, full, e, ← kept) (append_bytes-Wrote g bytes w (omega arith))
        | inr fits ↦ rw (same, fits) (append_bytes-Wrote h bytes v (ground arith))
      ]

  pub write_all-Wrote :
      (h : Header) (chunks : List (List ℕ))
      → IsFilling a h
      → h.binary_size + length (concat chunks) ≤ 2 ^ 62
      → Wrote a (bytes_of h) (concat chunks) (write_all a h chunks)
  unfolding write_all
  write_all-Wrote h [] v top = (
    h,
    refl,
    v,
    sym (append-nil (bytes_of h)),
    omega (arith, v, length-take h.binary_size h.memory (omega (arith, v))),
  )
  write_all-Wrote h (bytes ∷ rest) v top =
      let fits = length-append bytes (concat rest) in
      let (g, e, w, kept, sz) = write-Wrote h bytes v (omega (arith, fits)) in
      let held = length-take h.binary_size h.memory (omega (arith, v)) in
      let (f, e', w', kept', sz') = write_all-Wrote g rest w (omega (arith, fits, held)) in
      (
        f,
        rw e e',
        w',
        rw (kept', kept) (append_assoc (bytes_of h) bytes (concat rest)),
        omega (arith, fits, ap length kept, length-append (bytes_of h) bytes),
      )

  pub new_buffer-IsFilling :
      (g : Header) × (new_buffer a ≡ ok g) × IsFilling a g × (bytes_of g ≡ []) × (g.binary_size ≡ 0)
  unfolding new_buffer allocate_shared_binary
  new_buffer-IsFilling =
      let (raw, me, ml) = works initial_memory_size in
      (
        record {
          total_memory_size = initial_memory_size;
          binary_size = 0;
          binary_capacity = initial_memory_size - a.header_size;
          reference_count = 0;
          is_reference_count_enabled = false;
          memory = drop a.header_size raw;
        },
        rw (allocate_shared_binary, me),
        record {
          sized = omega (arith, length-drop a.header_size raw);
          within = omega arith;
          some_room = omega (arith, small);
          in_word = omega arith;
          total = omega (arith, small);
          unshared = refl;
        },
        refl,
        refl,
      )

  -- A fresh buffer that is filled by any chunks of at most 2^62 bytes together is well formed and
  -- holds just their bytes, if the header is smaller than the initial memory and the allocator
  -- meets every request.
  pub new_buffer-write_all :
      (chunks : List (List ℕ))
      → length (concat chunks) ≤ 2 ^ 62
      → Wrote a [] (concat chunks) (new_buffer a >>= λ h. write_all a h chunks)
  new_buffer-write_all chunks top =
      let (g, e, v, empty, zero_size) = new_buffer-IsFilling in
      let (f, e', w, kept, sz) = write_all-Wrote g chunks v (omega arith) in
      (
        f,
        rw e e',
        w,
        kept ∙ ap (λ (l : List ℕ). l ++ concat chunks) empty,
        omega (arith, ap length empty),
      )
