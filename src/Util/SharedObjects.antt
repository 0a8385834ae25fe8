-- ===== src/Util/SharedObjects.antt =====
-- include/msgpack_rpc/util/impl/shared_objects.h: the buffers of shared objects and their pool. The
-- search answers `none` where an index is out of range or a remainder by 0 would be taken.
pub mod Handles
pub mod Search
pub mod Creation
pub mod Counts
pub mod Steps
use cpp_msgpack_rpc.Common.{
  ℤ, pos, negsuc, ℕ, zero, suc, ◌%◌, ◌^◌, ◌-◌, Bool, true, false, Option, none, some, ltb, ◌==◌,
  if◌then◌else◌, Result, ok, err,
}
use cpp_msgpack_rpc.Binary.Sharing.{at}

-- A reference count is an `std::atomic<int>`, with 32 bits: `fetch_add` and `fetch_sub` wrap.
abbrev pub increased : ℤ → ℤ
increased (pos n) = if n == 2 ^ 31 - 1 then negsuc (2 ^ 31 - 1) else pos (suc n)
increased (negsuc zero) = pos 0
increased (negsuc (suc n)) = negsuc n

abbrev pub decreased : ℤ → ℤ
decreased (pos zero) = negsuc 0
decreased (pos (suc n)) = pos n
decreased (negsuc n) = if n == 2 ^ 31 - 1 then pos (2 ^ 31 - 1) else negsuc (suc n)

abbrev pub is_one : ℤ → Bool
is_one (pos (suc zero)) = true
is_one _ = false

abbrev pub is_unused : ℤ → Bool
is_unused (negsuc zero) = true
is_unused _ = false

-- SharedObjectBuffer, for objects of the type T.
pub record Buffer (T : Type 0) : Type 0 where
  pub reference_count : ℤ
  pub buffer : Option T

-- SharedObjectMemoryPool; the vector of its buffers never changes its length.
pub record Pool (T : Type 0) : Type 0 where
  pub buffers : ℕ → Buffer T
  pub num_buffers : ℕ
  pub next_buffer_index : ℕ

-- What an object's constructor can throw, and the allocation of its buffer.
pub data Thrown (E : Type 0) : Type 0 where
  bad_alloc : Thrown E
  thrown : E → Thrown E

module _ {T : Type 0} where
  unfoldable pub new_buffer : Buffer T
  new_buffer = record { reference_count = negsuc 0; buffer = none }

  unfoldable pub try_start_use : Buffer T → Bool × Buffer T
  try_start_use b =
      if is_unused b.reference_count
      then (true, record b { reference_count = pos 1 })
      else (false, b)

  unfoldable pub emplace : T → Buffer T → Buffer T
  emplace v b = record b { buffer = some v }

  unfoldable pub add_reference : Buffer T → Buffer T
  add_reference b = record b { reference_count = increased b.reference_count }

  unfoldable pub release : Buffer T → Buffer T
  release b =
      if is_one b.reference_count
      then record { reference_count = negsuc 0; buffer = none }
      else record b { reference_count = decreased b.reference_count }

  -- The constructor of the pool.
  unfoldable pub new_pool : ℕ → Pool T
  unfolding new_buffer
  new_pool n = record { buffers = λ b. new_buffer; num_buffers = n; next_buffer_index = 0 }

  abbrev pub write : Pool T → ℕ → Buffer T → Pool T
  write p b v = record p { buffers = at p.buffers b v }

  -- The loop of `create` until a buffer is started (`some`) or all have been tried. The fuel ends
  -- it too.
  unfoldable pub search : Pool T → ℕ → ℕ → Option (Option ℕ × Pool T)
  unfolding try_start_use
  search p initial zero = none
  search p initial (suc fuel) =
      let i = p.next_buffer_index in
      let (is_started, b) = try_start_use (p.buffers i) in
      let q = record p { next_buffer_index = suc i % p.num_buffers } in
      let rest = search q initial fuel in
      if ltb i p.num_buffers
      then if is_started
        then some (some i, write q i b)
        else if q.next_buffer_index == initial
        then some (none, q)
        else rest
      else none

  -- The rest of `create`: the object is made in the buffer, which is let go when that throws.
  unfoldable pub constructed :
      {E : Type 0} → Result E T → Option ℕ × Pool T → Result (Thrown E) ℕ × Pool T
  unfolding emplace release
  constructed made (none, p) = (err bad_alloc, p)
  constructed (ok v) (some i, p) = (ok i, write p i (emplace v (p.buffers i)))
  constructed (err e) (some i, p) = (err (thrown e), write p i (release (p.buffers i)))

  -- SharedObjectMemoryPool::create, with what the constructor of the object answers.
  unfoldable pub create : {E : Type 0} → Pool T → Result E T → Option (Result (Thrown E) ℕ × Pool T)
  unfolding search constructed
  create p made = elim (search p p.next_buffer_index p.num_buffers) [
    | none ↦ none
    | some r ↦ some (constructed made r)
  ]
