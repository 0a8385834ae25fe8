-- ===== src/Util/SharedObjects/Creation.antt =====
-- SharedObjectMemoryPool::create of shared_objects.h: what it returns and throws.
use cpp_msgpack_rpc.Common.{
  pos, negsuc, ℕ, suc, ◌%◌, ◌≡◌, refl, inl, inr, Bool-cases, Option, none, some, ◌==◌, ==_refl,
  Result, ok, err,
}
use cpp_msgpack_rpc.Binary.Sharing.{at}
use cpp_msgpack_rpc.Util.SharedObjects.{
  Buffer, Pool, Thrown, bad_alloc, thrown, emplace, release, write, constructed, create,
}
use cpp_msgpack_rpc.Util.SharedObjects.Search.{
  IsReady, IsFirst, AreUsed, Finds, started_at, search-Finds,
}

-- The buffer k of p becomes b, and the next search begins after it.
pub record IsChanged {T : Type 0} (p : Pool T) (k : ℕ) (b : Buffer T) (q : Pool T) : Type 0 where
  pub buffer_at : (c : ℕ) → q.buffers c ≡ at p.buffers k b c
  pub same_num : q.num_buffers ≡ p.num_buffers
  pub next_at : q.next_buffer_index ≡ suc k % p.num_buffers

-- What `create` does: an object in the first unused buffer from the pool's index on; an exception of
-- its constructor, after which that buffer is unused again; or bad_alloc, when all are used.
abbrev pub Creates : {E T : Type 0} → Pool T → Result E T → Result (Thrown E) ℕ × Pool T → Type 0
Creates p (ok v) (ok k, q) =
    IsFirst p p.next_buffer_index k
    × IsChanged p k (record { reference_count = pos 1; buffer = some v }) q
Creates p (err e) (err (thrown f), q) =
    (e ≡ f)
    × (k : ℕ) × IsFirst p p.next_buffer_index k
    × IsChanged p k (record { reference_count = negsuc 0; buffer = none }) q
Creates p made (err bad_alloc, q) = AreUsed p × (q ≡ p)
Creates p made _ = ⊥

written_twice :
    {T : Type 0} (f : ℕ → Buffer T) (k : ℕ) (a b : Buffer T) (c : ℕ)
    → at (at f k a) k b c ≡ at f k b c
written_twice f k a b c = elim (Bool-cases (k == c)) [
  | inl same ↦ rw same refl
  | inr other ↦ rw other refl
]

started-IsChanged :
    {T : Type 0} (p : Pool T) (k : ℕ) (b : Buffer T) → IsChanged p k b (write (started_at p k) k b)
started-IsChanged p k b = record {
  buffer_at =
      written_twice p.buffers k (record { reference_count = pos 1; buffer = (p.buffers k).buffer })
        b;
  same_num = refl;
  next_at = refl;
}

constructed-Creates :
    {E T : Type 0} (p : Pool T) (made : Result E T) (r : Option ℕ × Pool T)
    → Finds p p.next_buffer_index r
    → Creates p made (constructed made r)
unfolding constructed emplace release
constructed-Creates p (ok v) (none, q) (used, e) = (used, e)
constructed-Creates p (err x) (none, q) (used, e) = (used, e)
constructed-Creates p (ok v) (some k, q) (first, e) = (
  first,
  rw (e, ==_refl k) (started-IsChanged p k (record { reference_count = pos 1; buffer = some v })),
)
constructed-Creates p (err x) (some k, q) (first, e) = (
  refl,
  k,
  first,
  rw (e, ==_refl k) (started-IsChanged p k (record { reference_count = negsuc 0; buffer = none })),
)

-- In a pool whose index is one of its buffers, `create` ends within one round of the buffers. It
-- makes the object in the first unused buffer from the index on, with a count of 1; or its
-- constructor throws, and that buffer is left unused; or all buffers are used, and it throws
-- bad_alloc and changes nothing.
pub create-Creates :
    {E T : Type 0} (p : Pool T) (made : Result E T)
    → IsReady p
    → (r : Result (Thrown E) ℕ × Pool T) × (create p made ≡ some r) × Creates p made r
unfolding create
create-Creates p made ready =
    let (r, e, f) = search-Finds p ready in
    (constructed made r, rw (e, create) refl, constructed-Creates p made r f)
