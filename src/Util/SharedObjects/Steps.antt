-- ===== src/Util/SharedObjects/Steps.antt =====
-- shared_objects.h: every operation keeps the reference counts.
use cpp_msgpack_rpc.Common.{
  pos, negsuc, ℕ, ◌≡◌, refl, ◌∙◌, inl, inr, Bool-cases, Option, none, some, List, [], ◌∷◌, ◌++◌,
  get_elem?, set, ◌==◌, Result, ok, err, arith,
}
use cpp_msgpack_rpc.Binary.Sharing.Holders.{
  holders-set, holders-append, get_elem?-set, get_elem?-set_other, elem-set,
}
use cpp_msgpack_rpc.Util.SharedObjects.{Pool, write, release, create, Thrown, bad_alloc, thrown}
use cpp_msgpack_rpc.Util.SharedObjects.Handles.{
  Store, create_handle, add_if, reset, copy, move, copy_from, move_from, copy_assign, move_assign,
  Operation, creates, resets, copies, moves, copy_assigns, move_assigns, step,
}
use cpp_msgpack_rpc.Util.SharedObjects.Creation.{Creates, create-Creates}
use cpp_msgpack_rpc.Util.SharedObjects.Counts.{IsShared, AreFew, kept, gained, lost, changed}

set-IsHandle :
    (i j : ℕ) (v m : Option ℕ) (hs : List (Option ℕ))
    → get_elem? hs j ≡ some m
    → (n : Option ℕ) × (get_elem? (set hs i v) j ≡ some n)
set-IsHandle i j v m hs e = elim (Bool-cases (i == j)) [
  | inl same ↦ let l : i ≡ j = ground (arith, same) in (v, rw l (get_elem?-set j v m hs e))
  | inr other ↦ (m, get_elem?-set_other i j v hs other ∙ e)
]

module _ {T : Type 0} where
  abbrev pub Succeeds : Option (Store T) → Type 0
  Succeeds r = (t : Store T) × (r ≡ some t) × IsShared t

  abbrev pub IsHandle : Store T → ℕ → Type 0
  IsHandle s i = (m : Option ℕ) × (get_elem? s.handles i ≡ some m)

  -- The handle i is empty after its reset, and the others are still there.
  abbrev Resets : Store T → ℕ → Type 0
  Resets s i =
      (t : Store T) × (reset s i ≡ some t)
      × IsShared t
      × AreFew t
      × (get_elem? t.handles i ≡ some none)
      × ((j : ℕ) → IsHandle s j → IsHandle t j)

  reset_of :
      (s : Store T) (i : ℕ) (m : Option ℕ)
      → AreFew s
      → IsShared s
      → get_elem? s.handles i ≡ some m
      → Resets s i
  unfolding reset
  reset_of s i none few v e = (s, rw (e, reset) refl, v, few, e, λ j h. h)
  reset_of s i (some b) few v e = (
    record { pool = write s.pool b (release (s.pool.buffers b)); handles = set s.handles i none },
    rw (e, reset) refl,
    lost s (set s.handles i none) b v
        (λ c. omega (arith, holders-set c i none (some b) s.handles e)),
    λ c. ground (arith, few c, holders-set c i none (some b) s.handles e),
    get_elem?-set i none (some b) s.handles e,
    λ j (n, h). set-IsHandle i j none n s.handles h,
  )

  copy_from-IsShared :
      (i j : ℕ) (s : Store T)
      → AreFew s
      → IsShared s
      → get_elem? s.handles i ≡ some none
      → IsHandle s j
      → Succeeds (copy_from i j s)
  unfolding copy_from
  copy_from-IsShared i j s few v ei (m, ej) = (
    add_if m (record s { handles = set s.handles i m }),
    rw (ej, copy_from) refl,
    gained s (set s.handles i m) m j few v ej
        (λ c. omega (arith, holders-set c i m none s.handles ei)),
  )

  move_from-IsShared :
      (i j : ℕ) (s : Store T)
      → IsShared s
      → get_elem? s.handles i ≡ some none
      → IsHandle s j
      → Succeeds (move_from i j s)
  unfolding move_from
  move_from-IsShared i j s v ei (m, ej) =
      let empty : get_elem? (set s.handles j none) i ≡ some none =
        elem-set j i m none s.handles ej ei in
      (
        record s { handles = set (set s.handles j none) i m },
        rw (ej, move_from) refl,
        kept s (set (set s.handles j none) i m) v (λ c. omega (
          arith,
          holders-set c i m none (set s.handles j none) empty,
          holders-set c j none m s.handles ej,
        )),
      )

  create_handle-Creates :
      {E : Type 0} (s : Store T) (made : Result E T) (r : Result (Thrown E) ℕ × Pool T)
      → IsShared s
      → create s.pool made ≡ some r
      → Creates s.pool made r
      → Succeeds (create_handle s made)
  unfolding create_handle
  create_handle-Creates s (ok x) (ok k, q) v e (first, ch) = (
    record { pool = q; handles = s.handles ++ some k ∷ [] },
    rw (e, create_handle) refl,
    changed s (s.handles ++ some k ∷ []) k (record { reference_count = pos 1; buffer = some x }) q 1
        v first ch (refl, x, refl) (λ c. ground (arith, holders-append c s.handles (some k ∷ []))),
  )
  create_handle-Creates s (err x) (err (thrown y), q) v e (same, k, first, ch) = (
    record s { pool = q },
    rw (e, create_handle) refl,
    changed s s.handles k (record { reference_count = negsuc 0; buffer = none }) q 0 v first ch
        (refl, refl) (λ c. ground arith),
  )
  create_handle-Creates s (ok x) (err bad_alloc, q) v e (used, same) =
      (record s { pool = q }, rw (e, create_handle) refl, rw same v)
  create_handle-Creates s (err x) (err bad_alloc, q) v e (used, same) =
      (record s { pool = q }, rw (e, create_handle) refl, rw same v)
  create_handle-Creates s (ok x) (err (thrown y), q) v e c = absurd c
  create_handle-Creates s (err x) (ok k, q) v e c = absurd c

  create_handle-IsShared :
      {E : Type 0} (s : Store T) (made : Result E T) → IsShared s → Succeeds (create_handle s made)
  create_handle-IsShared s made v =
      let (r, e, c) = create-Creates s.pool made v.ready in create_handle-Creates s made r v e c

  copy-IsShared : (s : Store T) (j : ℕ) → AreFew s → IsShared s → IsHandle s j → Succeeds (copy s j)
  unfolding copy
  copy-IsShared s j few v (m, e) = (
    add_if m (record s { handles = s.handles ++ m ∷ [] }),
    rw (e, copy) refl,
    gained s (s.handles ++ m ∷ []) m j few v e
        (λ c. omega (arith, holders-append c s.handles (m ∷ []))),
  )

  move-IsShared : (s : Store T) (j : ℕ) → IsShared s → IsHandle s j → Succeeds (move s j)
  unfolding move
  move-IsShared s j v (m, e) =
      let hs = set s.handles j none in
      (
        record s { handles = hs ++ m ∷ [] },
        rw (e, move) refl,
        kept s (hs ++ m ∷ []) v
            (λ c. omega (arith, holders-append c hs (m ∷ []), holders-set c j none m s.handles e)),
      )

  reset-IsShared :
      (s : Store T) (i : ℕ) → AreFew s → IsShared s → IsHandle s i → Succeeds (reset s i)
  reset-IsShared s i few v (m, e) =
      let (t, same, w, fewer, empty, there) = reset_of s i m few v e in (t, same, w)

  copy_assign-IsShared :
      (s : Store T) (i j : ℕ)
      → AreFew s
      → IsShared s
      → IsHandle s i
      → IsHandle s j
      → Succeeds (copy_assign s i j)
  unfolding copy_assign
  copy_assign-IsShared s i j few v (m, e) h = elim (Bool-cases (i == j)) [
    | inl same ↦ (s, rw same refl, v)
    | inr other ↦
        let (t, same, w, fewer, empty, there) = reset_of s i m few v e in
        rw (other, same) (copy_from-IsShared i j t fewer w empty (there j h))
  ]

  move_assign-IsShared :
      (s : Store T) (i j : ℕ)
      → AreFew s
      → IsShared s
      → IsHandle s i
      → IsHandle s j
      → Succeeds (move_assign s i j)
  unfolding move_assign
  move_assign-IsShared s i j few v (m, e) h =
      let (t, same, w, fewer, empty, there) = reset_of s i m few v e in
      rw (same) (move_from-IsShared i j t w empty (there j h))

-- The handles that an operation uses exist.
abbrev pub IsAllowed : {E T : Type 0} → Store T → Operation E T → Type 0
IsAllowed s (creates made) = Unit {0}
IsAllowed s (resets i) = IsHandle s i
IsAllowed s (copies j) = IsHandle s j
IsAllowed s (moves j) = IsHandle s j
IsAllowed s (copy_assigns i j) = IsHandle s i × IsHandle s j
IsAllowed s (move_assigns i j) = IsHandle s i × IsHandle s j

-- While no buffer has 2^31 - 1 handles, no operation on handles that exist fails, and each one keeps this: a buffer that no handle has is
-- unused and has no object, and any other has an object and counts its handles.
pub step-IsShared :
    {E T : Type 0} (s : Store T) (op : Operation E T)
    → AreFew s
    → IsShared s
    → IsAllowed s op
    → Succeeds (step s op)
unfolding step
step-IsShared s (creates made) few v h = create_handle-IsShared s made v
step-IsShared s (resets i) few v h = reset-IsShared s i few v h
step-IsShared s (copies j) few v h = copy-IsShared s j few v h
step-IsShared s (moves j) few v h = move-IsShared s j v h
step-IsShared s (copy_assigns i j) few v (h, k) = copy_assign-IsShared s i j few v h k
step-IsShared s (move_assigns i j) few v (h, k) = move_assign-IsShared s i j few v h k
