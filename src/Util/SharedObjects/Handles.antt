-- ===== src/Util/SharedObjects/Handles.antt =====
-- SharedObject of include/msgpack_rpc/util/impl/shared_objects.h: the handles that share the objects
-- of a pool. A handle is a place in the list; `none` is the null pointer of an empty one. A handle
-- that is not empty has the pool too, so the pool outlives it. An operation answers `none` where
-- there is no such handle.
use cpp_msgpack_rpc.Common.{
  ℕ, Option, none, some, List, [], ◌∷◌, ◌++◌, get_elem?, set, ◌==◌, if◌then◌else◌, Result, ok, err,
}
use cpp_msgpack_rpc.Util.SharedObjects.{Buffer, Pool, write, add_reference, release, create}

pub record Store (T : Type 0) : Type 0 where
  pub pool : Pool T
  pub handles : List (Option ℕ)

module _ {T : Type 0} where
  abbrev pub on_buffer : Store T → ℕ → (Buffer T → Buffer T) → Store T
  on_buffer s b f = record s { pool = write s.pool b (f (s.pool.buffers b)) }

  -- What `create` returns becomes the last handle.
  unfoldable pub create_handle : {E : Type 0} → Store T → Result E T → Option (Store T)
  create_handle s made = elim (create s.pool made) [
    | none ↦ none
    | some (ok i, p) ↦ some (record { pool = p; handles = s.handles ++ some i ∷ [] })
    | some (err e, p) ↦ some (record s { pool = p })
  ]

  unfoldable pub add_if : Option ℕ → Store T → Store T
  add_if none s = s
  add_if (some b) s = on_buffer s b add_reference

  -- SharedObject::reset, which is the destructor too.
  unfoldable pub reset : Store T → ℕ → Option (Store T)
  reset s i = elim (get_elem? s.handles i) [
    | none ↦ none
    | some none ↦ some s
    | some (some b) ↦ some (record {
      pool = write s.pool b (release (s.pool.buffers b));
      handles = set s.handles i none;
    })
  ]

  -- The copy constructor, whose new handle is the last.
  unfoldable pub copy : Store T → ℕ → Option (Store T)
  unfolding add_if
  copy s j = elim (get_elem? s.handles j) [
    | none ↦ none
    | some m ↦ some (add_if m (record s { handles = s.handles ++ m ∷ [] }))
  ]

  -- The move constructor.
  unfoldable pub move : Store T → ℕ → Option (Store T)
  move s j = elim (get_elem? s.handles j) [
    | none ↦ none
    | some m ↦ some (record s { handles = set s.handles j none ++ m ∷ [] })
  ]

  -- What the assignments do after their reset.
  unfoldable pub copy_from : ℕ → ℕ → Store T → Option (Store T)
  unfolding add_if
  copy_from i j s = elim (get_elem? s.handles j) [
    | none ↦ none
    | some m ↦ some (add_if m (record s { handles = set s.handles i m }))
  ]

  unfoldable pub move_from : ℕ → ℕ → Store T → Option (Store T)
  move_from i j s = elim (get_elem? s.handles j) [
    | none ↦ none
    | some m ↦ some (record s { handles = set (set s.handles j none) i m })
  ]

  abbrev pub then_do : Option (Store T) → (Store T → Option (Store T)) → Option (Store T)
  then_do none f = none
  then_do (some s) f = f s

  unfoldable pub copy_assign : Store T → ℕ → ℕ → Option (Store T)
  unfolding reset copy_from
  copy_assign s i j = if i == j then some s else then_do (reset s i) (copy_from i j)

  unfoldable pub move_assign : Store T → ℕ → ℕ → Option (Store T)
  unfolding reset move_from
  move_assign s i j = then_do (reset s i) (move_from i j)

-- The operations, in any order.
pub data Operation (E T : Type 0) : Type 0 where
  creates : Result E T → Operation E T
  resets copies moves : ℕ → Operation E T
  copy_assigns move_assigns : ℕ → ℕ → Operation E T

unfoldable pub step : {E T : Type 0} → Store T → Operation E T → Option (Store T)
unfolding create_handle reset copy move copy_assign move_assign
step s (creates made) = create_handle s made
step s (resets i) = reset s i
step s (copies j) = copy s j
step s (moves j) = move s j
step s (copy_assigns i j) = copy_assign s i j
step s (move_assigns i j) = move_assign s i j
