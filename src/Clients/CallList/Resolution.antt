-- ===== src/Clients/CallList/Resolution.antt =====
-- call_list.h: histories of calls, responses and timeouts.
use cpp_msgpack_rpc.Common.{
  ℕ, ◌+◌, ◌<◌, ◌≡◌, refl, ap, ◌∙◌, ◌≢◌, false, Option, none, some, List, [], ◌∷◌, ◌==◌,
  if◌then◌else◌, Bool-cases, Option-cases, ==_iff, inl, inr, arith,
}
use cpp_msgpack_rpc.Messages.Parsed.{ParsedResponse}
use cpp_msgpack_rpc.Clients.RequestIdGenerator.{generate}
use cpp_msgpack_rpc.Clients.CallFuture.{CallFuture, new_future, set_result}
use cpp_msgpack_rpc.Clients.CallList.{
  CallList, find, erase, update, create, create_serialized, emplace, settle, handle, timed_out,
  on_timeout,
}

find-erase :
    (id i : ℕ) (m : List (ℕ × ℕ)) → find i (erase id m) ≡ (if id == i then none else find i m)
find-erase id i [] = ground arith
find-erase id i ((j, k) ∷ m) = ground (arith, find-erase id i m)

module _ (Object Message : Type 0) where
  -- The calls of a history: a call that is made at a time, with what its parameters are
  -- serialized to, a response that comes in, and a timer that expires.
  pub data Event : Type 0 where
    creates : ℕ → (ℕ → Option Message) → Event
    responds : ParsedResponse Object → Event
    expires : ℕ → Event

  pub step : CallList Object → Event → CallList Object
  step l (creates now serialize) = (create l now serialize).0
  step l (responds r) = handle l r
  step l (expires id) = on_timeout l id

  pub run : CallList Object → List Event → CallList Object
  run l [] = l
  run l (e ∷ es) = run (step l e) es

  -- The first event that has the ID, and what it does to the future.
  abbrev pub outcome : ℕ → CallFuture Object → List Event → CallFuture Object
  outcome id f [] = f
  outcome id f (creates now serialize ∷ es) = outcome id f es
  outcome id f (responds r ∷ es) = if r.id == id then set_result f r.result else outcome id f es
  outcome id f (expires i ∷ es) = if i == id then timed_out f else outcome id f es

  -- No two calls share a future, and all futures are in the store.
  pub record IsValid (l : CallList Object) : Type 0 where
    pub bounded : (id k : ℕ) → find id l.list ≡ some k → k < l.num_futures
    pub separate : (id i k : ℕ) → find id l.list ≡ some k → find i l.list ≡ some k → id ≡ i

  -- No call holds the future.
  abbrev IsFree : CallList Object → ℕ → Type 0
  IsFree l k = (k < l.num_futures) × ((id : ℕ) → find id l.list ≢ some k)

  settle-IsValid :
      (l : CallList Object) (id : ℕ) (f : CallFuture Object → CallFuture Object)
      → IsValid l
      → IsValid (settle l id f)
  settle-IsValid l id f v = elim (Option-cases (find id l.list)) [
    | inl e ↦ rw e v
    | inr (k, e) ↦ rw e (record {
      bounded = λ i j h. v.bounded i j (ground (arith, find-erase id i l.list));
      separate = λ i j n h g.
          v.separate i j n (ground (arith, find-erase id i l.list))
            (ground (arith, find-erase id j l.list));
    })
  ]

  -- The state after a `create` that throws, and after one that succeeds.
  advanced : CallList Object → CallList Object
  advanced l = record l { next_id = (generate l.next_id).1 }

  added : CallList Object → ℕ → CallList Object
  added l deadline = record l {
    list = (l.next_id, l.num_futures) ∷ l.list;
    next_id = (generate l.next_id).1;
    futures = update l.futures l.num_futures (new_future deadline);
    num_futures = l.num_futures + 1;
  }

  create_cases {ℓ} :
      (P : CallList Object → Type ℓ) (l : CallList Object) (now : ℕ)
      (serialize : ℕ → Option Message)
      → P (advanced l)
      → (find l.next_id l.list ≡ none → P (added l (now + l.call_timeout)))
      → P (create l now serialize).0
  unfolding create generate advanced added
  create_cases P l now serialize throws succeeds = go (serialize l.next_id)
    where
      placed :
          (m : Message) (o : Option ℕ)
          → find l.next_id l.list ≡ o
          → P (emplace (advanced l) l.next_id (now + l.call_timeout) m o).0
      placed m none e = succeeds e
      placed m (some j) e = throws

      go :
          (m : Option Message)
          → P (create_serialized (advanced l) l.next_id (now + l.call_timeout) m).0
      go none = throws
      go (some m) = placed m (find l.next_id l.list) refl

  added-IsValid :
      (l : CallList Object) (deadline : ℕ)
      → find l.next_id l.list ≡ none
      → IsValid l
      → IsValid (added l deadline)
  unfolding added
  added-IsValid l deadline e v = record {
    bounded = λ i k h. ground (arith, v.bounded i k);
    separate = λ i j k h g. ground (arith, v.separate i j k, v.bounded i k, v.bounded j k);
  }

  create-IsValid :
      (l : CallList Object) (now : ℕ) (serialize : ℕ → Option Message)
      → IsValid l
      → IsValid (create l now serialize).0
  create-IsValid l now serialize v =
      create_cases IsValid l now serialize
        (unfold advanced in record { bounded = v.bounded; separate = v.separate })
        (λ e. added-IsValid l (now + l.call_timeout) e v)

  settle_held :
      (l : CallList Object) (id k : ℕ) (f : CallFuture Object → CallFuture Object)
      → IsValid l
      → find id l.list ≡ some k
      → ((settle l id f).futures k ≡ f (l.futures k)) × IsFree (settle l id f) k
  settle_held l id k f v e = rw e (
    ground arith,
    (v.bounded id k e, λ i h. ground (arith, find-erase id i l.list, v.separate id i k e)),
  )

  settle_other :
      (l : CallList Object) (id i k : ℕ) (f : CallFuture Object → CallFuture Object)
      → IsValid l
      → find id l.list ≡ some k
      → (i == id) ≡ false
      → ((settle l i f).futures k ≡ l.futures k) × (find id (settle l i f).list ≡ some k)
  settle_other l id i k f v e ne = elim (Option-cases (find i l.list)) [
    | inl g ↦ rw g (refl, e)
    | inr (j, g) ↦
        rw g (ground (arith, v.separate id i k e), ground (arith, find-erase i id l.list))
  ]

  settle-IsFree :
      (l : CallList Object) (i k : ℕ) (f : CallFuture Object → CallFuture Object)
      → IsFree l k
      → ((settle l i f).futures k ≡ l.futures k) × IsFree (settle l i f) k
  settle-IsFree l i k f free = elim (Option-cases (find i l.list)) [
    | inl g ↦ rw g (refl, free)
    | inr (j, g) ↦
        rw g (
          ground (arith, free.1 i),
          (free.0, λ n h. ground (arith, find-erase i n l.list, free.1 n)),
        )
  ]

  -- A step leaves the future of a settled call alone.
  step-IsFree :
      (l : CallList Object) (k : ℕ) (e : Event)
      → IsFree l k
      → ((step l e).futures k ≡ l.futures k) × IsFree (step l e) k
  unfolding step handle on_timeout
  step-IsFree l k (responds r) free = settle-IsFree l r.id k _ free
  step-IsFree l k (expires i) free = settle-IsFree l i k timed_out free
  step-IsFree l k (creates now serialize) free =
      create_cases (λ m. (m.futures k ≡ l.futures k) × IsFree m k) l now serialize
        (unfold advanced in (refl, free))
        (λ e.
          unfold added in
          (
            ground (arith, free.0),
            (omega (arith, free.0), λ i h. ground (arith, free.0, free.1 i)),
          ))

  run_free :
      (l : CallList Object) (k : ℕ) (es : List Event)
      → IsFree l k
      → (run l es).futures k ≡ l.futures k
  unfolding run
  run_free l k [] free = refl
  run_free l k (e ∷ es) free =
      let (same, still) = step-IsFree l k e free in run_free (step l e) k es still ∙ same

  -- A call that is made, a response and a timeout keep a list of calls well formed: no two calls
  -- share a future, and each has one in the store.
  pub step-IsValid : (l : CallList Object) (e : Event) → IsValid l → IsValid (step l e)
  unfolding step handle on_timeout
  step-IsValid l (responds r) v = settle-IsValid l r.id _ v
  step-IsValid l (expires i) v = settle-IsValid l i timed_out v
  step-IsValid l (creates now serialize) v = create-IsValid l now serialize v

  create_held :
      (l : CallList Object) (now : ℕ) (serialize : ℕ → Option Message) (id k : ℕ)
      → IsValid l
      → find id l.list ≡ some k
      → ((create l now serialize).0.futures k ≡ l.futures k)
        × (find id (create l now serialize).0.list ≡ some k)
  create_held l now serialize id k v e =
      create_cases (λ m. (m.futures k ≡ l.futures k) × (find id m.list ≡ some k)) l now serialize
        (unfold advanced in (refl, e))
        (λ missing.
          unfold added in (ground (arith, v.bounded id k e), ground (arith, v.bounded id k e)))

  -- A settling event, with the ID of the call or with another one, and what follows it.
  settles :
      (l : CallList Object) (id i k : ℕ) (f : CallFuture Object → CallFuture Object)
      (es : List Event)
      → IsValid l
      → find id l.list ≡ some k
      → (find id (settle l i f).list ≡ some k
          → (run (settle l i f) es).futures k ≡ outcome id ((settle l i f).futures k) es)
      → (run (settle l i f) es).futures k
        ≡ (if i == id then f (l.futures k) else outcome id (l.futures k) es)
  settles l id i k f es v e later = elim (Bool-cases (i == id)) [
    | inl hit ↦
        let (made, free) = settle_held l i k f v (rw ((==_iff i id).0 hit) e) in
        rw hit (run_free (settle l i f) k es free ∙ made)
    | inr miss ↦
        let (same, still) = settle_other l id i k f v e miss in
        rw miss (later still ∙ ap (λ g. outcome id g es) same)
  ]

  -- In a well-formed list the future of a call that waits is what the first event with its ID makes
  -- it, however many calls, responses and timeouts with that ID or others follow.
  pub futures-run :
      (l : CallList Object) (id k : ℕ) (es : List Event)
      → IsValid l
      → find id l.list ≡ some k
      → (run l es).futures k ≡ outcome id (l.futures k) es
  unfolding run step handle on_timeout
  futures-run l id k [] v e = refl
  futures-run l id k (creates now serialize ∷ es) v e =
      let (same, still) = create_held l now serialize id k v e in
      futures-run (create l now serialize).0 id k es (create-IsValid l now serialize v) still
      ∙ ap (λ g. outcome id g es) same
  futures-run l id k (responds r ∷ es) v e =
      settles l id r.id k (λ f. set_result f r.result) es v e
        (futures-run (handle l r) id k es (settle-IsValid l r.id _ v))
  futures-run l id k (expires i ∷ es) v e =
      settles l id i k timed_out es v e
        (futures-run (on_timeout l i) id k es (settle-IsValid l i timed_out v))
