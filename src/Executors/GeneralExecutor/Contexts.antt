-- ===== src/Executors/GeneralExecutor/Contexts.antt =====
-- general_executor.cpp: which context is used for an operation.
use cpp_msgpack_rpc.Common.{
  ℕ, zero, suc, ◌+◌, ◌-◌, ◌%◌, ◌^◌, ◌<◌, ◌≡◌, refl, false, Option, none, some, List, [], ◌∷◌, arith,
}
use cpp_msgpack_rpc.Executors.GeneralExecutor.{
  GeneralExecutor, OperationType, transport, callback, context, stop,
}

abbrev pub round_robin : ℕ → ℕ → ℕ → List ℕ
round_robin zero index size = []
round_robin (suc n) index size = (index % size) ∷ round_robin n (suc index) size

module _ {Exn : Type 0} where
  abbrev pub num_contexts : OperationType → GeneralExecutor Exn → ℕ
  num_contexts transport e = e.num_transport
  num_contexts callback e = e.num_callback

  abbrev pub context_index : OperationType → GeneralExecutor Exn → ℕ
  context_index transport e = e.transport_context_index
  context_index callback e = e.callback_context_index

  -- The indices that some calls of `context` in a row give.
  pub contexts : ℕ → OperationType → GeneralExecutor Exn → Option (List ℕ)
  contexts zero type e = some []
  contexts (suc n) type e = elim (context type e) [
    | none ↦ none
    | some (i, f) ↦ elim (contexts n type f) [ none ↦ none | some is ↦ some (i ∷ is) ]
  ]

  context_step :
      (type : OperationType) (e : GeneralExecutor Exn)
      → 0 < num_contexts type e
      → context_index type e < 2 ^ 64 - 1
      → (f : GeneralExecutor Exn) × (context type e
          ≡ some (context_index type e % num_contexts type e, f))
        × (num_contexts type f ≡ num_contexts type e)
        × (context_index type f ≡ suc (context_index type e))
  unfolding context
  context_step transport e pos small = (
    record e { transport_context_index = e.transport_context_index + 1 },
    ground arith,
    refl,
    omega arith,
  )
  context_step callback e pos small = (
    record e { callback_context_index = e.callback_context_index + 1 },
    ground arith,
    refl,
    omega arith,
  )

  -- The contexts for one type of operation are used in turn, if there is one and as long as the
  -- counter of 64 bits does not wrap.
  pub contexts-round_robin :
      (n : ℕ) (type : OperationType) (e : GeneralExecutor Exn)
      → 0 < num_contexts type e
      → context_index type e + n < 2 ^ 64
      → contexts n type e ≡ some (round_robin n (context_index type e) (num_contexts type e))
  unfolding contexts
  contexts-round_robin zero type e pos small = refl
  contexts-round_robin (suc n) type e pos small =
      let (f, c, s, i) = context_step type e pos (omega arith) in
      rw (c, contexts, contexts-round_robin n type f (omega arith) (omega arith), s, i)

  -- An executor that is stopped has no contexts left, and asking it for one divides by 0.
  pub context-stop :
      (type : OperationType) (e : GeneralExecutor Exn)
      → e.is_stopped ≡ false
      → context type (stop e) ≡ none
  unfolding context stop
  context-stop transport e h = ground arith
  context-stop callback e h = ground arith
