-- ===== src/Tests/Laws.antt =====
-- The laws of the msgpack library for the small format, and those of the allocator.
use cpp_msgpack_rpc.Common.{
  ℕ, zero, suc, ◌≤◌, ◌<◌, ◌≡◌, refl, sym, ap, ◌∙◌, ◌⊎◌, inl, inr, some, List, [], ◌∷◌, ◌++◌, map,
  length, concat, replicate, append_assoc, append-nil, arith,
}
use cpp_msgpack_rpc.Messages.Msgpack.{IsMsgpack, Unpacked, incomplete, broken, unpacked, bytes}
use cpp_msgpack_rpc.Binary.Buffer.Append.{AllocatorWorks}
use cpp_msgpack_rpc.Tests.Text.{text_of-codes}
use cpp_msgpack_rpc.Tests.Toy.{
  and_then, split, item, items, packed, array, unpack_toy, toy, toy_allocator,
}

and_then-unpacked :
    {A B : Type 0} (u : Unpacked A) (f : A → List ℕ → Unpacked B) {b : B} {rest : List ℕ}
    → and_then u f ≡ unpacked b rest
    → (a : A) × (r : List ℕ) × (u ≡ unpacked a r) × (f a r ≡ unpacked b rest)
and_then-unpacked incomplete f e = cc
and_then-unpacked broken f e = cc
and_then-unpacked (unpacked a r) f e = (a, r, refl, e)

and_then-broken :
    {A B : Type 0} (u : Unpacked A) (f : A → List ℕ → Unpacked B)
    → and_then u f ≡ broken
    → (u ≡ broken) ⊎ ((a : A) × (r : List ℕ) × (u ≡ unpacked a r) × (f a r ≡ broken))
and_then-broken incomplete f e = cc
and_then-broken broken f e = inl refl
and_then-broken (unpacked a r) f e = inr (a, r, refl, e)

-- What is unpacked stays so when more numbers follow, and takes none that were not there.
abbrev Extends : {A : Type 0} → (List ℕ → Unpacked A) → Type 0
Extends {A} f =
    (bs more rest : List ℕ) (o : A)
    → f bs ≡ unpacked o rest
    → f (bs ++ more) ≡ unpacked o (rest ++ more)

abbrev StaysBroken : {A : Type 0} → (List ℕ → Unpacked A) → Type 0
StaysBroken f = (bs more : List ℕ) → f bs ≡ broken → f (bs ++ more) ≡ broken

abbrev Shrinks : {A : Type 0} → (List ℕ → Unpacked A) → Type 0
Shrinks {A} f = (bs rest : List ℕ) (o : A) → f bs ≡ unpacked o rest → length rest ≤ length bs

split-Extends : (k : ℕ) → Extends (split k)
split-Extends zero bs more rest o e = cc
split-Extends (suc k) [] more rest o e = cc
split-Extends (suc k) (b ∷ bs) more rest o e =
    let (a, r, s, f) = and_then-unpacked (split k bs) _ e in rw (split-Extends k bs more r a s) cc

split-StaysBroken : (k : ℕ) → StaysBroken (split k)
split-StaysBroken zero bs more e = cc
split-StaysBroken (suc k) [] more e = cc
split-StaysBroken (suc k) (b ∷ bs) more e = elim (and_then-broken (split k bs) _ e) [
  | inl s ↦ rw (split-StaysBroken k bs more s) refl
  | inr (a, r, s, f) ↦ cc
]

split-Shrinks : (k : ℕ) → Shrinks (split k)
split-Shrinks zero bs rest o e = ground arith
split-Shrinks (suc k) [] rest o e = cc
split-Shrinks (suc k) (b ∷ bs) rest o e =
    let (a, r, s, f) = and_then-unpacked (split k bs) _ e in
    ground (arith, split-Shrinks k bs r a s)

split-length : (o rest : List ℕ) → split (length o) (o ++ rest) ≡ unpacked o rest
split-length [] rest = refl
split-length (b ∷ o) rest = rw (split-length o rest) refl

item-Extends : Extends item
item-Extends [] more rest o e = cc
item-Extends (zero ∷ []) more rest o e = cc
item-Extends (zero ∷ k ∷ bs) more rest o e = split-Extends k bs more rest o e
item-Extends (suc n ∷ bs) more rest o e = cc

item-StaysBroken : StaysBroken item
item-StaysBroken [] more e = cc
item-StaysBroken (zero ∷ []) more e = cc
item-StaysBroken (zero ∷ k ∷ bs) more e = split-StaysBroken k bs more e
item-StaysBroken (suc n ∷ bs) more e = refl

item-Shrinks : Shrinks item
item-Shrinks [] rest o e = cc
item-Shrinks (zero ∷ []) rest o e = cc
item-Shrinks (zero ∷ k ∷ bs) rest o e = omega (arith, split-Shrinks k bs rest o e)
item-Shrinks (suc n ∷ bs) rest o e = cc

items-Extends : (n : ℕ) → Extends (items n)
items-Extends zero bs more rest o e = cc
items-Extends (suc n) bs more rest o e =
    let (a, r, s, f) = and_then-unpacked (item bs) _ e in
    let (os, q, t, g) = and_then-unpacked (items n r) _ f in
    rw (item-Extends bs more r a s, items-Extends n r more q os t) cc

items-StaysBroken : (n : ℕ) → StaysBroken (items n)
items-StaysBroken zero bs more e = cc
items-StaysBroken (suc n) bs more e = elim (and_then-broken (item bs) _ e) [
  | inl s ↦ rw (item-StaysBroken bs more s) refl
  | inr (a, r, s, f) ↦ elim (and_then-broken (items n r) _ f) [
    | inl t ↦ rw (item-Extends bs more r a s, items-StaysBroken n r more t) refl
    | inr (os, q, t, g) ↦ cc
  ]
]

items-Shrinks : (n : ℕ) → Shrinks (items n)
items-Shrinks zero bs rest o e = ground arith
items-Shrinks (suc n) bs rest o e =
    let (a, r, s, f) = and_then-unpacked (item bs) _ e in
    let (os, q, t, g) = and_then-unpacked (items n r) _ f in
    ground (arith, item-Shrinks bs r a s, items-Shrinks n r q os t)

items-packed :
    (xs : List (List ℕ)) (rest : List ℕ)
    → items (length xs) (concat (map packed xs) ++ rest) ≡ unpacked xs rest
items-packed [] rest = refl
items-packed (o ∷ xs) rest =
    rw
      (
        append_assoc o (concat (map packed xs)) rest,
        split-length o (concat (map packed xs) ++ rest),
        items-packed xs rest,
      )
      refl

unpack_toy-Extends : Extends unpack_toy
unpack_toy-Extends [] more rest o e = cc
unpack_toy-Extends (zero ∷ bs) more rest o e = item-Extends (zero ∷ bs) more rest o e
unpack_toy-Extends (suc zero ∷ []) more rest o e = cc
unpack_toy-Extends (suc zero ∷ n ∷ bs) more rest o e =
    let (a, r, s, f) = and_then-unpacked (items n bs) _ e in rw (items-Extends n bs more r a s) cc
unpack_toy-Extends (suc (suc n) ∷ bs) more rest o e = cc

unpack_toy-StaysBroken : StaysBroken unpack_toy
unpack_toy-StaysBroken [] more e = cc
unpack_toy-StaysBroken (zero ∷ bs) more e = item-StaysBroken (zero ∷ bs) more e
unpack_toy-StaysBroken (suc zero ∷ []) more e = cc
unpack_toy-StaysBroken (suc zero ∷ n ∷ bs) more e = elim (and_then-broken (items n bs) _ e) [
  | inl s ↦ rw (items-StaysBroken n bs more s) refl
  | inr (a, r, s, f) ↦ cc
]
unpack_toy-StaysBroken (suc (suc n) ∷ bs) more e = refl

unpack_toy_shrinks :
    (bs rest : List ℕ) (o : List ℕ) → unpack_toy bs ≡ unpacked o rest → length rest < length bs
unpack_toy_shrinks [] rest o e = cc
unpack_toy_shrinks (zero ∷ []) rest o e = cc
unpack_toy_shrinks (zero ∷ k ∷ bs) rest o e = omega (arith, split-Shrinks k bs rest o e)
unpack_toy_shrinks (suc zero ∷ []) rest o e = cc
unpack_toy_shrinks (suc zero ∷ n ∷ bs) rest o e =
    let (a, r, s, f) = and_then-unpacked (items n bs) _ e in
    ground (arith, items-Shrinks n bs r a s)
unpack_toy_shrinks (suc (suc n) ∷ bs) rest o e = cc

elements-array : (xs : List (List ℕ)) → toy.elements (array xs) ≡ some xs
elements-array xs =
    let e : items (length xs) (concat (map packed xs)) ≡ unpacked xs [] =
      ap (λ (l : List ℕ). items (length xs) l) (sym (append-nil (concat (map packed xs))))
      ∙ items-packed xs [] in
    rw e refl

map-bytes : (xs : List (List ℕ)) → map (bytes toy) xs ≡ map packed xs
map-bytes [] = refl
map-bytes (x ∷ xs) = rw (append-nil x, map-bytes xs) refl

unpack_array-toy :
    (xs : List (List ℕ)) (rest : List ℕ)
    → unpack_toy ((1 ∷ length xs ∷ []) ++ concat (map (bytes toy) xs) ++ rest)
      ≡ unpacked (array xs) rest
unpack_array-toy xs rest = rw (map-bytes xs, items-packed xs rest) refl

pub toy-IsMsgpack : IsMsgpack toy
toy-IsMsgpack = record {
  elements-of_array = elements-array;
  as_uint64-of_uint = λ n h. refl;
  as_uint32-of_uint = λ n h. refl;
  as_string-of_string = text_of-codes;
  is_nil-nil = refl;
  unpack-array = unpack_array-toy;
  unpack-extend = unpack_toy-Extends;
  broken-extend = unpack_toy-StaysBroken;
  unpack-shrinks = unpack_toy_shrinks;
}

length-replicate : (n : ℕ) → length (replicate {A = ℕ} n 0) ≡ n
length-replicate zero = refl
length-replicate (suc n) = ap suc (length-replicate n)

pub toy_allocator-AllocatorWorks : AllocatorWorks toy_allocator
toy_allocator-AllocatorWorks n = (replicate n 0, refl, length-replicate n)
