-- ===== src/Clients/MessageSender/Race/Advancing.antt =====
-- message_sender.h: what one step of a thread keeps.
use cpp_msgpack_rpc.Common.{
  ℕ, suc, ◌+◌, ◌≤◌, ◌<◌, ◌≡◌, ◌≢◌, refl, Bool, true, false, Option, none, some, [], ◌∷◌, length,
  length-append, Option-cases, Bool-cases, ◌∙◌, inl, inr, if◌then◌else◌, arith,
}
use cpp_msgpack_rpc.Clients.SentMessageQueue.{next, pop}
use cpp_msgpack_rpc.Clients.MessageSender.Race.{
  Position, enters, loaded, has_connection, holds, claims, completed, popped, closed, finished,
  Shared, Threads, is_current, async_send, advance, hold, found, pop_sent,
}

-- Whether a thread is between the exchange of `is_sending_`, for the open connection, and the store
-- that resets it.
abbrev pub in_hand : {Message : Type 0} → Option ℕ → Position Message → ℕ
in_hand now (claims c m) = if is_current c now then 1 else 0
in_hand now completed = 1
in_hand now popped = 1
in_hand now _ = 0

abbrev pub flag : Bool → ℕ
flag true = 1
flag false = 0

-- The positions of the user's thread, whose connection has a number below n.
abbrev pub IsUser : {Message : Type 0} → ℕ → Position Message → Type 0
IsUser n (has_connection c) = c < n
IsUser n (holds c m) = c < n
IsUser n (claims c m) = c < n
IsUser n completed = ⊥
IsUser n popped = ⊥
IsUser n closed = ⊥
IsUser n _ = Unit {0}

abbrev pub IsBelow : ℕ → Option ℕ → Type 0
IsBelow n none = Unit {0}
IsBelow n (some c) = c < n

pub flag_small : (b : Bool) → flag b ≤ 1
flag_small true = omega arith
flag_small false = omega arith

module _ {Message : Type 0} where
  -- At most one thread or write of the open connection has the flag, and then it is set.
  pub record IsExclusive (t : Threads Message) : Type 0 where
    pub held :
        in_hand t.shared.connection t.user
          + in_hand t.shared.connection t.transport
          + length t.shared.in_flight
        ≤ flag t.shared.is_sending
    pub user : IsUser t.shared.next_connection t.user
    pub below : IsBelow t.shared.next_connection t.shared.connection
    -- Without a connection nothing is written, and there is none when it has just been reset.
    pub quiet : t.shared.connection ≡ none → length t.shared.in_flight ≡ 0
    pub reset : t.transport ≡ closed → t.shared.connection ≡ none

  -- What a step keeps, with the flags of the others.
  abbrev Advances : Shared Message → ℕ → Position Message → Shared Message → Type 0
  Advances s others q r =
      (in_hand r.connection q + others + length r.in_flight ≤ flag r.is_sending)
      × (r.connection ≡ s.connection)
      × (r.next_connection ≡ s.next_connection)
      × ((s.connection ≡ none → length s.in_flight ≡ 0)
          → r.connection ≡ none
          → length r.in_flight ≡ 0)
      × (q ≢ closed)

  abbrev Idle : Position Message → ℕ → Type 0
  Idle closed n = n ≡ 0
  Idle _ n = Unit {0}

  advance-Advances :
      (p : Position Message) (s : Shared Message) (others : ℕ) (q : Position Message)
      (r : Shared Message)
      → advance p s ≡ some (q, r)
      → in_hand s.connection p + others + length s.in_flight ≤ flag s.is_sending
      → Idle p (others + length s.in_flight)
      → Advances s others q r
  unfolding advance hold found async_send pop_sent
  advance-Advances enters s others q r e h idle = ground arith
  advance-Advances loaded s others q r e h idle = elim (Option-cases s.connection) [
    | inl none_open ↦ ground arith
    | inr (c, open_now) ↦ ground arith
  ]
  advance-Advances (has_connection c) s others q r e h idle = elim (Option-cases (next s.queue).0) [
    | inl empty ↦ ground arith
    | inr (m, there) ↦ ground arith
  ]
  advance-Advances (holds c m) s others q r e h idle = ground arith
  advance-Advances (claims c m) s others q r e h idle =
      ground (arith, length-append s.in_flight (m ∷ []))
  advance-Advances completed s others q r e h idle = elim (Option-cases (pop s.queue)) [
    | inl empty ↦ ground arith
    | inr (m, there) ↦ ground arith
  ]
  advance-Advances popped s others q r e h idle = ground arith
  advance-Advances closed s others q r e h idle = ground arith
  advance-Advances finished s others q r e h idle = ground arith

  advance-IsUser :
      (p : Position Message) (s : Shared Message) (q : Position Message) (r : Shared Message)
      → advance p s ≡ some (q, r)
      → IsUser s.next_connection p
      → IsBelow s.next_connection s.connection
      → IsUser s.next_connection q
  unfolding advance hold found async_send pop_sent
  advance-IsUser enters s q r e u b = elim (Bool-cases s.is_sending) [
    | inl sending ↦ let h : finished ≡ q = ground arith in rw⁻¹ h _
    | inr free ↦ let h : loaded ≡ q = ground arith in rw⁻¹ h _
  ]
  advance-IsUser loaded s q r e u b = elim (Option-cases s.connection) [
    | inl none_open ↦ let h : finished ≡ q = ground arith in rw⁻¹ h _
    | inr (c, open_now) ↦
        let h : has_connection c ≡ q = ground arith in
        let k : IsBelow s.next_connection (some c) = rw open_now at b in rw⁻¹ h k
  ]
  advance-IsUser (has_connection c) s q r e u b = elim (Option-cases (next s.queue).0) [
    | inl empty ↦ let h : finished ≡ q = ground arith in rw⁻¹ h _
    | inr (m, there) ↦ let h : holds c m ≡ q = ground arith in rw⁻¹ h u
  ]
  advance-IsUser (holds c m) s q r e u b = elim (Bool-cases s.is_sending) [
    | inl sending ↦ let h : finished ≡ q = ground arith in rw⁻¹ h _
    | inr free ↦ let h : claims c m ≡ q = ground arith in rw⁻¹ h u
  ]
  advance-IsUser (claims c m) s q r e u b = let h : finished ≡ q = ground arith in rw⁻¹ h _
  advance-IsUser completed s q r e u b = absurd u
  advance-IsUser popped s q r e u b = absurd u
  advance-IsUser closed s q r e u b = absurd u
  advance-IsUser finished s q r e u b = let h : finished ≡ q = ground arith in rw⁻¹ h _

  user-Idle : (n : ℕ) (p : Position Message) (k : ℕ) → IsUser n p → Idle p k
  user-Idle n closed k u = absurd u
  user-Idle n enters k u = tt
  user-Idle n loaded k u = tt
  user-Idle n (has_connection c) k u = tt
  user-Idle n (holds c m) k u = tt
  user-Idle n (claims c m) k u = tt
  user-Idle n completed k u = tt
  user-Idle n popped k u = tt
  user-Idle n finished k u = tt

  -- Without a connection the user's thread has no flag.
  pub in_hand-none : (n : ℕ) (p : Position Message) → IsUser n p → in_hand none p ≡ 0
  in_hand-none n completed u = absurd u
  in_hand-none n popped u = absurd u
  in_hand-none n closed u = absurd u
  in_hand-none n enters u = refl
  in_hand-none n loaded u = refl
  in_hand-none n (has_connection c) u = refl
  in_hand-none n (holds c m) u = refl
  in_hand-none n (claims c m) u = refl
  in_hand-none n finished u = refl

  transport-Idle :
      (p : Position Message) (now : Option ℕ) (n : ℕ) (others : ℕ)
      → (p ≡ closed → now ≡ none)
      → (now ≡ none → others ≡ 0)
      → Idle p others
  transport-Idle closed now n others reset quiet = quiet (reset refl)
  transport-Idle enters now n others reset quiet = tt
  transport-Idle loaded now n others reset quiet = tt
  transport-Idle (has_connection c) now n others reset quiet = tt
  transport-Idle (holds c m) now n others reset quiet = tt
  transport-Idle (claims c m) now n others reset quiet = tt
  transport-Idle completed now n others reset quiet = tt
  transport-Idle popped now n others reset quiet = tt
  transport-Idle finished now n others reset quiet = tt

  pub user_moves :
      (t : Threads Message) (q : Position Message) (r : Shared Message)
      → advance t.user t.shared ≡ some (q, r)
      → IsExclusive t
      → IsExclusive (record t { user = q; shared = r })
  user_moves t q r e v =
      let k = length t.shared.in_flight in
      let hand = in_hand t.shared.connection t.transport in
      let (held, connection, same, quiet, not_closed) =
        advance-Advances t.user t.shared hand q r e v.held
          (user-Idle t.shared.next_connection t.user (hand + k) v.user) in
      record {
        held = rw (connection) (rw (connection) at held);
        user = rw same (advance-IsUser t.user t.shared q r e v.user v.below);
        below = rw (connection, same) v.below;
        quiet = quiet v.quiet;
        reset = λ h. connection ∙ v.reset h;
      }

  pub transport_moves :
      (t : Threads Message) (q : Position Message) (r : Shared Message)
      → advance t.transport t.shared ≡ some (q, r)
      → IsExclusive t
      → IsExclusive (record t { transport = q; shared = r })
  transport_moves t q r e v =
      let k = length t.shared.in_flight in
      let now = t.shared.connection in
      let hand = in_hand now t.user in
      let none_held : now ≡ none → hand + k ≡ 0 = λ h.
        (let a : in_hand now t.user ≡ 0 =
            rw h (in_hand-none t.shared.next_connection t.user v.user) in
          omega (arith, a, v.quiet h)) in
      let (held, connection, same, quiet, not_closed) =
        advance-Advances t.transport t.shared hand q r e (omega (arith, v.held))
          (transport-Idle t.transport now t.shared.next_connection (hand + k) v.reset none_held) in
      record {
        held = let h = (rw connection at held) in rw connection (omega (arith, h));
        user = rw same v.user;
        below = rw (connection, same) v.below;
        quiet = quiet v.quiet;
        reset = λ h. absurd (not_closed h);
      }

  -- Nor has it one of a connection that is new.
  pub in_hand-new : (n : ℕ) (p : Position Message) → IsUser n p → in_hand (some n) p ≡ 0
  in_hand-new n completed u = absurd u
  in_hand-new n popped u = absurd u
  in_hand-new n closed u = absurd u
  in_hand-new n enters u = refl
  in_hand-new n loaded u = refl
  in_hand-new n (has_connection c) u = refl
  in_hand-new n (holds c m) u = refl
  in_hand-new n (claims c m) u = ground (arith, u)
  in_hand-new n finished u = refl

  pub IsUser-suc : (n : ℕ) (p : Position Message) → IsUser n p → IsUser (suc n) p
  IsUser-suc n completed u = u
  IsUser-suc n popped u = u
  IsUser-suc n closed u = u
  IsUser-suc n enters u = u
  IsUser-suc n loaded u = u
  IsUser-suc n (has_connection c) u = omega (arith, u)
  IsUser-suc n (holds c m) u = omega (arith, u)
  IsUser-suc n (claims c m) u = omega (arith, u)
  IsUser-suc n finished u = u
