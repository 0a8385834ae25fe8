-- ===== src/Clients/CallList.antt =====
-- call_list.h, call.h: the calls that wait for a response. The futures are shared with the
-- callers, so they live in a store, and a call holds the number of its future.
pub mod Resolution
use cpp_msgpack_rpc.Common.{
  ℕ, ◌+◌, Bool, true, false, Option, none, some, List, [], ◌∷◌, ◌==◌, if◌then◌else◌, Result, ok,
  err,
}
use cpp_msgpack_rpc.Status.{Status, status, timeout, unexpected_error}
use cpp_msgpack_rpc.Messages.Parsed.{ParsedResponse, CallResult}
use cpp_msgpack_rpc.Clients.RequestIdGenerator.{generate}
use cpp_msgpack_rpc.Clients.CallFuture.{CallFuture, new_future, set_result, set_error}

-- `std::unordered_map::find` and `erase`; a key occurs once, since `try_emplace` keeps an old one.
abbrev pub find : ℕ → List (ℕ × ℕ) → Option ℕ
find id [] = none
find id ((i, k) ∷ m) = if i == id then some k else find id m

abbrev pub erase : ℕ → List (ℕ × ℕ) → List (ℕ × ℕ)
erase id [] = []
erase id ((i, k) ∷ m) = let rest = erase id m in if i == id then rest else (i, k) ∷ rest

pub record CallList (Object : Type 0) : Type 0 where
  pub list : List (ℕ × ℕ)
  pub next_id : ℕ
  pub call_timeout : ℕ
  -- The store of the futures, and how many there are.
  pub futures : ℕ → CallFuture Object
  pub num_futures : ℕ

abbrev pub update : {A : Type 0} → (ℕ → A) → ℕ → A → ℕ → A
update f k v j = if k == j then v else f j

-- What `create` throws: its own exception, or the one that serializing the parameters throws.
pub data CreateError : Type 0 where
  duplicate : Status → CreateError
  not_serialized : CreateError

pub record Created (Message : Type 0) : Type 0 where
  pub id : ℕ
  pub message : Message
  -- The future, and the time of its timer.
  pub future : ℕ
  pub expires : ℕ

module _ {Object Message : Type 0} where
  emplace :
      CallList Object
      → ℕ
      → ℕ
      → Message
      → Option ℕ
      → CallList Object × Result CreateError (Created Message)
  emplace l id deadline message (some _) =
      (l, err (duplicate (status unexpected_error "Duplicate request ID.")))
  emplace l id deadline message none = (
    record l {
      list = (id, l.num_futures) ∷ l.list;
      futures = update l.futures l.num_futures (new_future deadline);
      num_futures = l.num_futures + 1;
    },
    ok (record { id = id; message = message; future = l.num_futures; expires = deadline }),
  )

  create_serialized :
      CallList Object
      → ℕ
      → ℕ
      → Option Message
      → CallList Object × Result CreateError (Created Message)
  create_serialized l id deadline none = (l, err not_serialized)
  create_serialized l id deadline (some message) = emplace l id deadline message (find id l.list)

  -- `serialize` is `create_serialized_request` of the parameters, `none` if it throws. The ID is
  -- used up in any case.
  pub create :
      CallList Object
      → ℕ
      → (ℕ → Option Message)
      → CallList Object × Result CreateError (Created Message)
  unfolding create_serialized emplace
  create l now serialize =
      let (id, next) = generate l.next_id in
      create_serialized (record l { next_id = next }) id (now + l.call_timeout) (serialize id)

module _ {Object : Type 0} where
  abbrev pub settle_found :
      CallList Object → ℕ → Option ℕ → (CallFuture Object → CallFuture Object) → CallList Object
  settle_found l id none f = l
  settle_found l id (some k) f = record l {
    list = erase id l.list;
    futures = update l.futures k (f (l.futures k));
  }

  -- Finds a call, sets its future, and takes it off the list.
  abbrev pub settle :
      CallList Object → ℕ → (CallFuture Object → CallFuture Object) → CallList Object
  settle l id f = settle_found l id (find id l.list) f

  unfoldable pub handle : CallList Object → ParsedResponse Object → CallList Object
  handle l response = settle l response.id (λ f. set_result f response.result)

  -- The error is no success, so setting it does not throw.
  abbrev pub timed_out : CallFuture Object → CallFuture Object
  timed_out f =
      elim (set_error f
        (status timeout "Result of an RPC couldn't be received within a timeout.")) [
          | ok g ↦ g
          | err e ↦ f
        ]

  pub on_timeout : CallList Object → ℕ → CallList Object
  on_timeout l id = settle l id timed_out
