-- ===== src/Clients/RequestIdGenerator.antt =====
-- request_id_generator.h: IDs of 32 bits, from a random start.
use cpp_msgpack_rpc.Common.{ℕ, zero, suc, ◌+◌, ◌%◌, ◌^◌, ◌<◌, ◌≡◌, ◌≢◌, arith}

abbrev pub id_mod : ℕ
id_mod = 2 ^ 32

-- `generate`: the ID, and the next one. The atomic counter wraps.
unfoldable pub generate : ℕ → ℕ × ℕ
generate next_id = (next_id, (next_id + 1) % id_mod)

-- The generator after some calls.
pub after_calls : ℕ → ℕ → ℕ
after_calls next_id zero = next_id
after_calls next_id (suc n) = after_calls (generate next_id).1 n

after_calls_eq : (next_id n : ℕ) → next_id < id_mod → after_calls next_id n ≡ (next_id + n) % id_mod
unfolding after_calls generate
after_calls_eq next_id zero h = omega arith
after_calls_eq next_id (suc n) h =
    omega (arith, after_calls_eq ((next_id + 1) % id_mod) n (omega arith))

-- Of any 2^32 IDs in a row, from a counter of 32 bits, no two are equal.
pub generate-distinct :
    (next_id i j : ℕ)
    → next_id < id_mod
    → i < j
    → j < i + id_mod
    → (generate (after_calls next_id i)).0 ≢ (generate (after_calls next_id j)).0
unfolding generate
generate-distinct next_id i j h lt close =
    omega (arith, after_calls_eq next_id i h, after_calls_eq next_id j h)
