-- ===== src/Tests/Toy.antt =====
-- A small format: an object is a list of numbers, packed with a 0 and its length in front; an array
-- is packed as a 1 and its length with its elements behind.
use Prim.Native.String.{String}
use cpp_msgpack_rpc.Common.{
  ℕ, zero, suc, Bool, true, false, Option, none, some, List, [], ◌∷◌, map, length, concat,
  replicate,
}
use cpp_msgpack_rpc.Binary.Header.{Allocator}
use cpp_msgpack_rpc.Messages.Msgpack.{Msgpack, Unpacked, incomplete, broken, unpacked}
use cpp_msgpack_rpc.Tests.Text.{codes, text_of}

abbrev pub and_then : {A B : Type 0} → Unpacked A → (A → List ℕ → Unpacked B) → Unpacked B
and_then incomplete f = incomplete
and_then broken f = broken
and_then (unpacked a rest) f = f a rest

-- The next numbers, as many as are asked for.
abbrev pub split : ℕ → List ℕ → Unpacked (List ℕ)
split zero bs = unpacked [] bs
split (suc k) [] = incomplete
split (suc k) (b ∷ bs) = and_then (split k bs) (λ o rest. unpacked (b ∷ o) rest)

abbrev pub item : List ℕ → Unpacked (List ℕ)
item [] = incomplete
item (zero ∷ []) = incomplete
item (zero ∷ k ∷ bs) = split k bs
item (suc n ∷ bs) = broken

abbrev pub items : ℕ → List ℕ → Unpacked (List (List ℕ))
items zero bs = unpacked [] bs
items (suc n) bs =
    and_then (item bs) (λ o rest. and_then (items n rest) (λ os later. unpacked (o ∷ os) later))

abbrev pub packed : List ℕ → List ℕ
packed o = 0 ∷ length o ∷ o

abbrev pub array : List (List ℕ) → List ℕ
array xs = 3 ∷ length xs ∷ concat (map packed xs)

abbrev pub unpack_toy : List ℕ → Unpacked (List ℕ)
unpack_toy [] = incomplete
unpack_toy (zero ∷ bs) = item (zero ∷ bs)
unpack_toy (suc zero ∷ []) = incomplete
unpack_toy (suc zero ∷ n ∷ bs) = and_then (items n bs) (λ os rest. unpacked (array os) rest)
unpack_toy (suc (suc n) ∷ bs) = broken

abbrev all_items : Unpacked (List (List ℕ)) → Option (List (List ℕ))
all_items (unpacked xs rest) = some xs
all_items _ = none

abbrev pub elements_toy : List ℕ → Option (List (List ℕ))
elements_toy (suc (suc (suc zero)) ∷ n ∷ bs) = all_items (items n bs)
elements_toy _ = none

abbrev pub number : List ℕ → Option ℕ
number (suc zero ∷ n ∷ []) = some n
number _ = none

abbrev pub text : List ℕ → Option String
text (suc (suc zero) ∷ ns) = text_of ns
text _ = none

abbrev pub nothing : List ℕ → Bool
nothing [] = true
nothing _ = false

abbrev pub toy : Msgpack
toy = record {
  Object = List ℕ;
  elements = elements_toy;
  as_uint64 = number;
  as_uint32 = number;
  as_string = text;
  is_nil = nothing;
  of_uint = λ n. 1 ∷ n ∷ [];
  of_string = λ s. 2 ∷ codes s;
  of_array = array;
  nil = [];
  pack = λ o. packed o ∷ [];
  pack_array = λ n. (1 ∷ n ∷ []) ∷ [];
  unpack = unpack_toy;
}

abbrev pub toy_allocator : Allocator
toy_allocator = record { header_size = 32; malloc = λ n. some (replicate n 0) }
