-- ===== src/Binary/Growth.antt =====
-- sharable_binary_header.h: the loop of `expand_sharable_binary`.
use native.Mathlib.Nat.{pow-suc}
use cpp_msgpack_rpc.Common.{
  ℕ, zero, suc, ◌*◌, ◌^◌, ◌≤◌, ◌<◌, ◌≡◌, Option, some, leb, Bool-cases, inl, inr, arith,
}
use cpp_msgpack_rpc.Binary.Header.{grow}

abbrev pub Grown : ℕ → ℕ → Option ℕ → Type 0
Grown capacity required r =
    (c : ℕ) × (r ≡ some c) × (required ≤ c) × (2 * capacity ≤ c) × (c < 2 * required)

-- With enough fuel, a capacity above 0 that is too small and a required size of at most 2^63, the
-- loop ends with a capacity that holds the required size, is at least doubled and is less than
-- twice the required size.
pub grow-Grown :
    (fuel capacity required : ℕ)
    → 0 < capacity
    → capacity < required
    → required ≤ 2 ^ 63
    → required ≤ capacity * 2 ^ fuel
    → Grown capacity required (grow fuel capacity required)
unfolding grow
grow-Grown zero capacity required p lt top h = absurd (omega arith)
grow-Grown (suc fuel) capacity required p lt top h =
    elim (Bool-cases (leb required (capacity * 2))) [
      | inl done ↦ (capacity * 2, ground arith, ground arith, ground arith, ground arith)
      | inr more ↦ wider (
          grow-Grown fuel (capacity * 2) required (omega arith) (ground arith) top
            (omega (arith, shifted)))
    ]
  where
    shifted : capacity * 2 ^ suc fuel ≡ capacity * 2 * 2 ^ fuel
    shifted = rw pow-suc (omega arith)

    wider :
        Grown (capacity * 2) required (grow fuel (capacity * 2) required)
        → Grown capacity required (grow (suc fuel) capacity required)
    wider (c, e, a, b, d) = (c, ground arith, ground arith, ground arith, ground arith)
