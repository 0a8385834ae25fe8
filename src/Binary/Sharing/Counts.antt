-- ===== src/Binary/Sharing/Counts.antt =====
-- serialized_message.cpp: the reference counts of blocks while messages are copied and destroyed.
use cpp_msgpack_rpc.Common.{
  ℕ, suc, ◌^◌, ◌≤◌, ◌<◌, ◌≡◌, refl, sym, ◌∙◌, Bool, false, Bool-cases, Option, none, some, List, [],
  ◌∷◌, ◌++◌, length, get_elem?, set, ◌==◌, if◌then◌else◌, inl, inr, arith,
}
use cpp_msgpack_rpc.Binary.Sharing.Holders.{
  holders, holders-set, holders-append, get_elem?-holders, get_elem?-set, get_elem?-set_other,
  get_elem?-append, elem-set,
}
use cpp_msgpack_rpc.Binary.Sharing.{
  Store, put, let_go, construct, block_of, copy, destroy, assign_from, copy_assign, move, swapped,
  move_assign,
}

-- No block has 2^32 - 1 messages.
abbrev pub AreFew : Store → Type 0
AreFew s = (b : ℕ) → suc (holders b s.messages) < 2 ^ 32

-- The counts are the numbers of messages, and a block is freed just when it has been made and no
-- message holds it.
pub record IsCounted (s : Store) : Type 0 where
  pub counted : (b : ℕ) → s.counts b ≡ holders b s.messages
  pub fresh : (b : ℕ) → s.num_blocks ≤ b → (s.counts b ≡ 0) × (s.is_freed b ≡ false)
  pub made : (b : ℕ) → b < s.num_blocks → s.is_freed b ≡ (s.counts b == 0)

-- A block that a message holds has not been freed.
alive :
    (s : Store) (i b : ℕ)
    → IsCounted s
    → get_elem? s.messages i ≡ some (some b)
    → (b < s.num_blocks) × (s.is_freed b ≡ false) × (1 ≤ s.counts b)
alive s i b v e =
    let pos : 1 ≤ s.counts b = omega (arith, v.counted b, get_elem?-holders b i s.messages e) in
    let small : b < s.num_blocks = ground (arith, pos, v.fresh b) in
    (small, ground (arith, pos, v.made b small), pos)

passes : {b : Bool} {t : Store} → b ≡ false → (if b then none else some t) ≡ some t
passes e = rw (e, if◌then◌else◌) refl

put-IsCounted :
    (s : Store) (i b : ℕ)
    → AreFew s
    → IsCounted s
    → get_elem? s.messages i ≡ some none
    → b < s.num_blocks
    → 1 ≤ s.counts b
    → (t : Store) × (put s i b ≡ some t) × IsCounted t
unfolding put
put-IsCounted s i b few v e small pos =
    let there : s.is_freed b ≡ false = ground (arith, pos, v.made b small) in
    (
      _,
      passes there,
      record {
        counted =
            λ c. ground (arith, few c, v.counted c, holders-set c i (some b) none s.messages e);
        fresh = λ c h. ground (arith, v.fresh c h);
        made = λ c h. ground (arith, few b, v.counted b, v.made c h, v.made b small);
      },
    )

let_go-IsCounted :
    (s : Store) (i b : ℕ)
    → AreFew s
    → IsCounted s
    → get_elem? s.messages i ≡ some (some b)
    → (t : Store) × (let_go s i b ≡ some t) × IsCounted t × (t.messages ≡ set s.messages i none)
unfolding let_go
let_go-IsCounted s i b few v e =
    let (small, there, pos) = alive s i b v e in
    (
      _,
      passes there,
      record {
        counted = λ c.
            ground (arith, pos, few c, v.counted c, holders-set c i none (some b) s.messages e);
        fresh = λ c h. ground (arith, v.fresh c h);
        made = λ c h. ground (arith, pos, few b, v.counted b, v.made c h);
      },
      refl,
    )

construct-IsCounted : (s : Store) → IsCounted s → IsCounted (construct s)
unfolding construct
construct-IsCounted s v = record {
  counted = λ c.
      ground (arith, v.counted c, v.fresh c, holders-append c s.messages (some s.num_blocks ∷ []));
  fresh = λ c h. ground (arith, v.fresh c);
  made = λ c h. ground (arith, v.made c, v.fresh c);
}

-- The operations on messages.
pub data Operation : Type 0 where
  constructs : Operation
  copies moves destroys : ℕ → Operation
  assigns move_assigns : ℕ → ℕ → Operation

unfoldable pub step : Store → Operation → Option Store
step s constructs = some (construct s)
step s (copies i) = copy s i
step s (moves i) = move s i
step s (destroys i) = destroy s i
step s (assigns i j) = copy_assign s i j
step s (move_assigns i j) = move_assign s i j

-- The objects exist, and one that is copied has not been moved from.
abbrev pub IsAllowed : Store → Operation → Type 0
IsAllowed s constructs = Unit {0}
IsAllowed s (copies i) = (b : ℕ) × (get_elem? s.messages i ≡ some (some b))
IsAllowed s (moves i) = (m : Option ℕ) × (get_elem? s.messages i ≡ some m)
IsAllowed s (destroys i) = (m : Option ℕ) × (get_elem? s.messages i ≡ some m)
IsAllowed s (assigns i j) =
    (m : Option ℕ) × (b : ℕ) × (get_elem? s.messages i ≡ some m)
    × (get_elem? s.messages j ≡ some (some b))
IsAllowed s (move_assigns i j) =
    (m : Option ℕ) × (n : Option ℕ) × (get_elem? s.messages i ≡ some m)
    × (get_elem? s.messages j ≡ some n)

abbrev pub Succeeds : Option Store → Type 0
Succeeds r = (t : Store) × (r ≡ some t) × IsCounted t

widened : (s : Store) → IsCounted s → IsCounted (record s { messages = s.messages ++ none ∷ [] })
widened s v = record {
  counted = λ b. omega (arith, v.counted b, holders-append b s.messages (none ∷ []));
  fresh = v.fresh;
  made = v.made;
}

copy-IsCounted :
    (s : Store) (i b : ℕ)
    → AreFew s
    → IsCounted s
    → get_elem? s.messages i ≡ some (some b)
    → Succeeds (copy s i)
unfolding copy block_of
copy-IsCounted s i b few v e =
    let (small, there, pos) = alive s i b v e in
    let w : Store = record s { messages = s.messages ++ none ∷ [] } in
    rw (e, copy)
      (put-IsCounted w (length s.messages) b
        (λ c. ground (arith, few c, holders-append c s.messages (none ∷ []))) (widened s v)
        (get_elem?-append s.messages none) small pos)

-- The message at i has let its block go, the others are as before, and no block has more.
abbrev IsReleased : Store → ℕ → Store → Type 0
IsReleased s i t =
    (get_elem? t.messages i ≡ some none)
    × AreFew t
    × ((j : ℕ) → (i == j) ≡ false → get_elem? t.messages j ≡ get_elem? s.messages j)

destroy-IsCounted :
    (s : Store) (i : ℕ) (m : Option ℕ)
    → AreFew s
    → IsCounted s
    → get_elem? s.messages i ≡ some m
    → (t : Store) × (destroy s i ≡ some t) × IsCounted t × IsReleased s i t
unfolding destroy block_of
destroy-IsCounted s i none few v e = (s, rw (e, destroy) refl, v, (e, few, λ j h. refl))
destroy-IsCounted s i (some b) few v e =
    let (t, r, w, ms) = let_go-IsCounted s i b few v e in
    (
      t,
      rw (e, destroy) r,
      w,
      (
        rw ms (get_elem?-set i none (some b) s.messages e),
        λ c. rw ms (ground (arith, few c, holders-set c i none (some b) s.messages e)),
        λ j h. rw ms (get_elem?-set_other i j none s.messages h),
      ),
    )

assign_from-IsCounted :
    (r : Option Store) (s : Store) (i j b : ℕ)
    → r ≡ some s
    → AreFew s
    → IsCounted s
    → get_elem? s.messages i ≡ some none
    → get_elem? s.messages j ≡ some (some b)
    → Succeeds (assign_from r i j)
unfolding assign_from block_of
assign_from-IsCounted r s i j b h few v ei ej =
    let (small, there, pos) = alive s j b v ej in
    rw (h, assign_from, ej) (put-IsCounted s i b few v ei small pos)

copy_assign-IsCounted :
    (s : Store) (i j b : ℕ) (m : Option ℕ)
    → AreFew s
    → IsCounted s
    → get_elem? s.messages i ≡ some m
    → get_elem? s.messages j ≡ some (some b)
    → Succeeds (copy_assign s i j)
unfolding copy_assign
copy_assign-IsCounted s i j b m few v ei ej = elim (Bool-cases (i == j)) [
  | inl same ↦ rw (same, if◌then◌else◌) (s, refl, v)
  | inr other ↦
      let (t, r, w, (gone, fewer, rest)) = destroy-IsCounted s i m few v ei in
      rw (other, if◌then◌else◌)
        (assign_from-IsCounted (destroy s i) t i j b r fewer w gone (rest j other ∙ ej))
]

-- Only the places of the blocks change.
rearranged :
    (s : Store) (ms : List (Option ℕ))
    → IsCounted s
    → ((c : ℕ) → holders c ms ≡ holders c s.messages)
    → IsCounted (record s { messages = ms })
rearranged s ms v same = record {
  counted = λ c. v.counted c ∙ sym (same c);
  fresh = v.fresh;
  made = v.made;
}

move-IsCounted :
    (s : Store) (i : ℕ) (m : Option ℕ)
    → IsCounted s
    → get_elem? s.messages i ≡ some m
    → Succeeds (move s i)
unfolding move
move-IsCounted s i m v e =
    rw (e, move)
      (
        _,
        refl,
        rearranged s (set s.messages i none ++ m ∷ []) v (λ c. omega (
          arith,
          holders-append c (set s.messages i none) (m ∷ []),
          holders-set c i none m s.messages e,
        )),
      )

move_assign-IsCounted :
    (s : Store) (i j : ℕ) (m n : Option ℕ)
    → IsCounted s
    → get_elem? s.messages i ≡ some m
    → get_elem? s.messages j ≡ some n
    → Succeeds (move_assign s i j)
unfolding move_assign swapped
move_assign-IsCounted s i j m n v ei ej =
    rw (ei, ej)
      (
        _,
        refl,
        rearranged s (set (set s.messages i n) j m) v (λ c. omega (
          arith,
          holders-set c i n m s.messages ei,
          holders-set c j m n (set s.messages i n) (elem-set i j m n s.messages ei ej),
        )),
      )

-- Operations on messages, of which fewer than 2^32 - 1 hold one block, keep the reference counts right and use neither a null pointer nor a freed
-- block: the count of a block is the number of messages that hold it, and a block is freed just when
-- the last of them has let it go. The objects that are used exist, and one that is copied has not
-- been moved from.
pub step-IsCounted :
    (s : Store) (o : Operation)
    → AreFew s
    → IsCounted s
    → IsAllowed s o
    → (t : Store) × (step s o ≡ some t) × IsCounted t
unfolding step
step-IsCounted s constructs few v p = (construct s, refl, construct-IsCounted s v)
step-IsCounted s (copies i) few v (b, e) = copy-IsCounted s i b few v e
step-IsCounted s (moves i) few v (m, e) = move-IsCounted s i m v e
step-IsCounted s (destroys i) few v (m, e) =
    let (t, r, w, released) = destroy-IsCounted s i m few v e in (t, r, w)
step-IsCounted s (assigns i j) few v (m, b, ei, ej) = copy_assign-IsCounted s i j b m few v ei ej
step-IsCounted s (move_assigns i j) few v (m, n, ei, ej) = move_assign-IsCounted s i j m n v ei ej
