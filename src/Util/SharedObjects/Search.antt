-- ===== src/Util/SharedObjects/Search.antt =====
-- SharedObjectMemoryPool::create of shared_objects.h: which buffer the search finds.
use cpp_msgpack_rpc.Common.{
  pos, ℕ, zero, suc, ◌+◌, ◌%◌, ◌≤◌, ◌<◌, ◌≡◌, refl, ◌∙◌, ◌⊎◌, inl, inr, true, false, Bool-cases,
  Option, none, some, ltb, ◌==◌, if◌then◌else◌, arith,
}
use cpp_msgpack_rpc.Binary.Sharing.{at}
use cpp_msgpack_rpc.Util.SharedObjects.{is_unused, Buffer, Pool, try_start_use, search}
use native.Mathlib.Nat.{mod-eq_of_lt, mod_self}

module _ {T : Type 0} where
  abbrev pub IsUnused : Buffer T → Type 0
  IsUnused b = is_unused b.reference_count ≡ true

  abbrev pub IsUsed : Buffer T → Type 0
  IsUsed b = is_unused b.reference_count ≡ false

-- In a circle of n places, b is reached from `start` before k is.
abbrev pub IsBefore : (n start k b : ℕ) → Type 0
IsBefore n start k b = (start ≤ b × b < k) ⊎ (k < start × ((start ≤ b × b < n) ⊎ (b < k)))

next_index :
    (i n : ℕ) → i < n → ((suc i < n) × (suc i % n ≡ suc i)) ⊎ ((suc i ≡ n) × (suc i % n ≡ 0))
next_index i n h = elim (Bool-cases (ltb (suc i) n)) [
  | inl small ↦ let l : suc i < n = ground (arith, small) in inl (l, mod-eq_of_lt l)
  | inr large ↦ let e : suc i ≡ n = ground (arith, large) in inr (e, rw (e, mod_self) refl)
]

module _ {T : Type 0} where
  -- The pool with its buffer k started.
  abbrev pub started_at : Pool T → ℕ → Pool T
  started_at p k = record {
    buffers = at p.buffers k (record { reference_count = pos 1; buffer = (p.buffers k).buffer });
    num_buffers = p.num_buffers;
    next_buffer_index = suc k % p.num_buffers;
  }

  -- From `start` on, k is the first buffer that is unused.
  abbrev pub IsFirst : Pool T → (start k : ℕ) → Type 0
  IsFirst p start k =
      k < p.num_buffers
      × IsUnused (p.buffers k)
      × ((b : ℕ) → IsBefore p.num_buffers start k b → IsUsed (p.buffers b))

  abbrev pub AreUsed : Pool T → Type 0
  AreUsed p = (b : ℕ) → b < p.num_buffers → IsUsed (p.buffers b)

  -- The first unused buffer from `start` on is started, or every buffer is used.
  abbrev pub Finds : Pool T → ℕ → Option ℕ × Pool T → Type 0
  Finds p start (some k, q) = IsFirst p start k × (q ≡ started_at p k)
  Finds p start (none, q) = AreUsed p × (q ≡ record p { next_buffer_index = start })

  record Searching (p : Pool T) (start fuel : ℕ) : Type 0 where
    inside : p.next_buffer_index < p.num_buffers
    start_inside : start < p.num_buffers
    fuel_left :
        (start ≤ p.next_buffer_index × p.num_buffers + start ≤ fuel + p.next_buffer_index)
        ⊎ (p.next_buffer_index < start × start ≤ fuel + p.next_buffer_index)
    tried : (b : ℕ) → IsBefore p.num_buffers start p.next_buffer_index b → IsUsed (p.buffers b)

  search-hit :
      (p : Pool T) (start fuel : ℕ)
      → p.next_buffer_index < p.num_buffers
      → IsUnused (p.buffers p.next_buffer_index)
      → search p start (suc fuel)
        ≡ some (some p.next_buffer_index, started_at p p.next_buffer_index)
  unfolding search try_start_use
  search-hit p start fuel h unused =
      let small : ltb p.next_buffer_index p.num_buffers ≡ true = ground (arith, h) in
      rw (small, unused) refl

  search-miss :
      (p : Pool T) (start fuel : ℕ)
      → p.next_buffer_index < p.num_buffers
      → IsUsed (p.buffers p.next_buffer_index)
      → let q = record p { next_buffer_index = suc p.next_buffer_index % p.num_buffers } in
        search p start (suc fuel)
        ≡ (if q.next_buffer_index == start then some (none, q) else search q start fuel)
  unfolding search try_start_use
  search-miss p start fuel h used =
      let small : ltb p.next_buffer_index p.num_buffers ≡ true = ground (arith, h) in
      rw (small, used) refl

  abbrev Found : Pool T → ℕ → ℕ → Type 0
  Found p start fuel = (r : Option ℕ × Pool T) × (search p start fuel ≡ some r) × Finds p start r

  all-IsUsed :
      (p : Pool T) (start fuel : ℕ)
      → Searching p start fuel
      → IsUsed (p.buffers p.next_buffer_index)
      → suc p.next_buffer_index % p.num_buffers ≡ start
      → (b : ℕ) → b < p.num_buffers
      → IsUsed (p.buffers b)
  all-IsUsed p start fuel v used e b h =
      let i = p.next_buffer_index in
      let n = p.num_buffers in
      elim (Bool-cases (b == i)) [
        | inl same ↦ let l : b ≡ i = ground (arith, same) in rw l used
        | inr other ↦ v.tried b (ground (arith, other, h, v.inside, e, next_index i n v.inside))
      ]

  advanced :
      (p : Pool T) (start fuel : ℕ)
      → Searching p start (suc fuel)
      → IsUsed (p.buffers p.next_buffer_index)
      → (suc p.next_buffer_index % p.num_buffers == start) ≡ false
      → Searching
          (record p { next_buffer_index = suc p.next_buffer_index % p.num_buffers })
          start
          fuel
  advanced p start fuel v used e =
      let i = p.next_buffer_index in
      let n = p.num_buffers in
      record {
        inside = ground (arith, v.inside, next_index i n v.inside);
        start_inside = v.start_inside;
        fuel_left =
            ground (arith, v.inside, v.start_inside, v.fuel_left, e, next_index i n v.inside);
        tried = λ b h. elim (Bool-cases (b == i)) [
          | inl same ↦ let l : b ≡ i = ground (arith, same) in rw l used
          | inr other ↦
              v.tried b
                (ground (arith, other, h, v.inside, v.start_inside, e, next_index i n v.inside))
        ];
      }

  Finds-later :
      (p : Pool T) (start j : ℕ) (r : Option ℕ × Pool T)
      → Finds (record p { next_buffer_index = j }) start r
      → Finds p start r
  Finds-later p start j (some k, q) f = f
  Finds-later p start j (none, q) f = f

  search-Finds_from : (p : Pool T) (start fuel : ℕ) → Searching p start fuel → Found p start fuel
  search-Finds_from p start zero v = absurd (ground (arith, v.inside, v.start_inside, v.fuel_left))
  search-Finds_from p start (suc fuel) v =
      let i = p.next_buffer_index in
      elim (Bool-cases (is_unused (p.buffers i).reference_count)) [
        | inl unused ↦
            (_, search-hit p start fuel v.inside unused, ((v.inside, unused, v.tried), refl))
        | inr used ↦ elim (Bool-cases (suc i % p.num_buffers == start)) [
          | inl ends ↦
              let e : suc i % p.num_buffers ≡ start = ground (arith, ends) in
              (
                (none, record p { next_buffer_index = start }),
                search-miss p start fuel v.inside used ∙ rw (ends, e) refl,
                (all-IsUsed p start (suc fuel) v used e, refl),
              )
          | inr goes_on ↦
              let q = record p { next_buffer_index = suc i % p.num_buffers } in
              let (r, e, f) =
                search-Finds_from q start fuel (advanced p start fuel v used goes_on) in
              (
                r,
                search-miss p start fuel v.inside used ∙ rw goes_on e,
                Finds-later p start (suc i % p.num_buffers) r f,
              )
        ]
      ]

-- The pool's index is one of its buffers.
abbrev pub IsReady : {T : Type 0} → Pool T → Type 0
IsReady p = p.next_buffer_index < p.num_buffers

pub search-Finds :
    {T : Type 0} (p : Pool T)
    → IsReady p
    → (r : Option ℕ × Pool T) × (search p p.next_buffer_index p.num_buffers ≡ some r)
      × Finds p p.next_buffer_index r
search-Finds p ready = search-Finds_from p p.next_buffer_index p.num_buffers (record {
  inside = ready;
  start_inside = ready;
  fuel_left = inl (omega arith, omega arith);
  tried = λ b h. absurd (ground arith);
})
