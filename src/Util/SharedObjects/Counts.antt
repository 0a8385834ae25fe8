-- ===== src/Util/SharedObjects/Counts.antt =====
-- shared_objects.h: the reference counts of a pool's buffers while handles are made, copied, moved,
-- assigned and reset.
use cpp_msgpack_rpc.Common.{
  pos, negsuc, ℕ, zero, suc, ◌+◌, ◌≤◌, ◌<◌, ◌^◌, ◌-◌, ◌≡◌, refl, inl, inr, true, false, Bool-cases,
  Option, none, some, List, get_elem?, ◌==◌, if◌then◌else◌, arith,
}
use cpp_msgpack_rpc.Binary.Sharing.Holders.{is_held, holders, get_elem?-holders}
use cpp_msgpack_rpc.Util.SharedObjects.{Buffer, Pool, write, add_reference, release}
use cpp_msgpack_rpc.Util.SharedObjects.Handles.{Store, add_if}
use cpp_msgpack_rpc.Util.SharedObjects.Search.{IsReady, IsUnused, IsFirst}
use cpp_msgpack_rpc.Util.SharedObjects.Creation.{IsChanged}
use native.Mathlib.Nat.{mod-lt}

module _ {T : Type 0} where
  -- A buffer with n handles: it is unused and has no object just when n is 0.
  abbrev pub IsHeldBy : ℕ → Buffer T → Type 0
  IsHeldBy zero b = (b.reference_count ≡ negsuc 0) × (b.buffer ≡ none)
  IsHeldBy (suc n) b = (b.reference_count ≡ pos (suc n)) × (v : T) × (b.buffer ≡ some v)

  release-IsHeldBy : (n : ℕ) (b : Buffer T) → IsHeldBy (suc n) b → IsHeldBy n (release b)
  unfolding release
  release-IsHeldBy zero b (c, v, e) = rw (c) (refl, refl)
  release-IsHeldBy (suc n) b (c, v, e) = rw (c) (refl, v, e)

  add_reference-IsHeldBy :
      (n : ℕ) (b : Buffer T)
      → 1 ≤ n
      → suc n < 2 ^ 31
      → IsHeldBy n b
      → IsHeldBy (suc n) (add_reference b)
  unfolding add_reference
  add_reference-IsHeldBy zero b h small v = absurd (omega arith)
  add_reference-IsHeldBy (suc n) b h small (c, v, e) =
      let fits : (suc n == 2 ^ 31 - 1) ≡ false = ground (arith, small) in rw c (rw fits refl, v, e)

-- Every buffer's count is the number of its handles, and it has an object just when it has a handle.
pub record IsShared {T : Type 0} (s : Store T) : Type 0 where
  pub ready : IsReady s.pool
  pub counted : (b : ℕ) → IsHeldBy (holders b s.handles) (s.pool.buffers b)

-- No buffer has 2^31 - 1 handles.
abbrev pub AreFew : {T : Type 0} → Store T → Type 0
AreFew s = (b : ℕ) → suc (holders b s.handles) < 2 ^ 31

module _ {T : Type 0} where
  pub at_held :
      (s : Store T) (hs : List (Option ℕ)) (b : ℕ) (w : Buffer T)
      → IsShared s
      → IsHeldBy (holders b hs) w
      → ((c : ℕ) → (b == c) ≡ false → holders c hs ≡ holders c s.handles)
      → IsShared (record { pool = write s.pool b w; handles = hs })
  at_held s hs b w v held others = record {
    ready = v.ready;
    counted = λ c. elim (Bool-cases (b == c)) [
      | inl same ↦ let e : b ≡ c = ground (arith, same) in rw same (rw⁻¹ e held)
      | inr other ↦ rw (other, others c other) (v.counted c)
    ];
  }

  -- The handles change and no buffer gets or loses one.
  pub kept :
      (s : Store T) (hs : List (Option ℕ))
      → IsShared s
      → ((c : ℕ) → holders c hs ≡ holders c s.handles)
      → IsShared (record s { handles = hs })
  kept s hs v same = record { ready = v.ready; counted = λ c. rw (same c) (v.counted c) }

  pub gained :
      (s : Store T) (hs : List (Option ℕ)) (m : Option ℕ) (j : ℕ)
      → AreFew s
      → IsShared s
      → get_elem? s.handles j ≡ some m
      → ((c : ℕ) → holders c hs ≡ is_held c m + holders c s.handles)
      → IsShared (add_if m (record s { handles = hs }))
  unfolding add_if
  gained s hs none j few v e more = kept s hs v (λ c. omega (arith, more c))
  gained s hs (some b) j few v e more =
      let one : holders b hs ≡ suc (holders b s.handles) = ground (arith, more b) in
      let there : 1 ≤ holders b s.handles = get_elem?-holders b j s.handles e in
      at_held s hs b (add_reference (s.pool.buffers b)) v
        (rw one (
          add_reference-IsHeldBy (holders b s.handles) (s.pool.buffers b) there (few b)
            (v.counted b)))
        (λ c other. ground (arith, more c))

  pub lost :
      (s : Store T) (hs : List (Option ℕ)) (b : ℕ)
      → IsShared s
      → ((c : ℕ) → is_held c (some b) + holders c hs ≡ holders c s.handles)
      → IsShared (record { pool = write s.pool b (release (s.pool.buffers b)); handles = hs })
  lost s hs b v less =
      let one : holders b s.handles ≡ suc (holders b hs) = ground (arith, less b) in
      at_held s hs b (release (s.pool.buffers b)) v
        (release-IsHeldBy (holders b hs) (s.pool.buffers b)
          (let c : IsHeldBy (holders b s.handles) (s.pool.buffers b) = v.counted b in rw one at c))
        (λ c other. ground (arith, less c))

  unused-held : (n : ℕ) (b : Buffer T) → IsHeldBy n b → IsUnused b → n ≡ 0
  unused-held zero b v u = refl
  unused-held (suc n) b (c, v, e) u = let d : false ≡ true = rw c at u in cc

  -- A buffer that was unused becomes b, and h more handles have it.
  pub changed :
      (s : Store T) (hs : List (Option ℕ)) (k : ℕ) (b : Buffer T) (q : Pool T) (h : ℕ)
      → IsShared s
      → IsFirst s.pool s.pool.next_buffer_index k
      → IsChanged s.pool k b q
      → IsHeldBy h b
      → ((c : ℕ) → holders c hs ≡ (if k == c then h else 0) + holders c s.handles)
      → IsShared (record { pool = q; handles = hs })
  changed s hs k b q h v (small, unused, before) ch held more = record {
    ready = rw (ch.next_at, ch.same_num) (mod-lt (suc k) (omega (arith, small)));
    counted = λ c. rw (ch.buffer_at c) (elim (Bool-cases (k == c)) [
      | inl same ↦
          let e : k ≡ c = ground (arith, same) in
          let zero_held : holders k s.handles ≡ 0 =
            unused-held (holders k s.handles) (s.pool.buffers k) (v.counted k) unused in
          let all : holders c hs ≡ h = ground (arith, more c, zero_held, e, same) in
          rw (same, all) held
      | inr other ↦
          let all : holders c hs ≡ holders c s.handles = ground (arith, more c, other) in
          rw (other, all) (v.counted c)
    ]);
  }
