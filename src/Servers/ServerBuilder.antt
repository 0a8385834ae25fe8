-- ===== src/Servers/ServerBuilder.antt =====
-- servers/impl/server_builder_impl.h: the builder of servers. The acceptors that the backends create
-- are known by their local addresses, and in the server by their places.
pub mod Starting
pub mod Building
use cpp_msgpack_rpc.Common.{
  ℕ, suc, Bool, true, false, Option, none, some, List, [], ◌∷◌, ◌++◌, if◌then◌else◌, Result, ok,
  err, ◌>>=◌, String,
}
use cpp_msgpack_rpc.Status.{
  Status, status, precondition_not_met, Failure, msgpack_rpc_exception, failing,
}
use cpp_msgpack_rpc.Addresses.Uri.{Uri}
use cpp_msgpack_rpc.Transport.AsyncConnect
use cpp_msgpack_rpc.Transport.AsyncConnect.{BackendList}
use cpp_msgpack_rpc.Methods.MethodProcessor
use cpp_msgpack_rpc.Methods.MethodProcessor.{MethodDict, Method}
use cpp_msgpack_rpc.Executors.GeneralExecutor
use cpp_msgpack_rpc.Executors.GeneralExecutor.{GeneralExecutor}
use cpp_msgpack_rpc.Servers.ServerImpl
use cpp_msgpack_rpc.Servers.ServerImpl.{
  ServerImpl, Outcome, Effect, Answer, returns, start_fails, rethrows, new_server,
}

pub record ServerBuilder (Exn Object Backend : Type 0) : Type 0 where
  -- The executor is shared with the server.
  pub executor : Option (GeneralExecutor Exn)
  pub backends : BackendList Backend
  pub uris : List Uri
  -- The methods of the processor, which a build takes away.
  pub processor : Option (MethodDict Object)

-- A method that is added after a build has no processor to go to.
pub data Added : Type 0 where
  throws : Status → Added
  faults : Added

abbrev pub is_some : {A : Type 0} → Option A → Bool
is_some none = false
is_some (some a) = true

abbrev pub is_empty : {A : Type 0} → List A → Bool
is_empty [] = true
is_empty (x ∷ xs) = false

abbrev pub unusable : Failure
unusable =
    msgpack_rpc_exception (status precondition_not_met "All URI set to listen to was unusable.")

-- The places of the elements of a list, from n on.
abbrev pub places : {A : Type 0} → ℕ → List A → List ℕ
places n [] = []
places n (x ∷ xs) = n ∷ places (suc n) xs

-- What a build throws, or the addresses of the acceptors and how the start of the server ended, or that
-- the destructor of the server waits for threads that do not end, after some calls.
pub data Built (Exn Address : Type 0) : Type 0 where
  refuses : Failure → Built Exn Address
  starts : List Address → Outcome Exn → Built Exn Address
  waits : List Address → List Effect → Built Exn Address

module _ {Exn Object Backend : Type 0} where
  unfoldable pub new_builder :
      GeneralExecutor Exn → BackendList Backend → List Uri → ServerBuilder Exn Object Backend
  new_builder e backends uris = record {
    executor = some e;
    backends = backends;
    uris = uris;
    processor = some [];
  }

  unfoldable pub register_protocol :
      ServerBuilder Exn Object Backend
      → String
      → Backend
      → Result Status (ServerBuilder Exn Object Backend)
  register_protocol b scheme backend = AsyncConnect.append b.backends scheme backend >>= λ backends.
      ok (record b { backends = backends })

  unfoldable pub listen_to :
      ServerBuilder Exn Object Backend → Uri → ServerBuilder Exn Object Backend
  listen_to b u = record b { uris = b.uris ++ u ∷ [] }

  unfoldable pub appended :
      Result Status (MethodDict Object)
      → ServerBuilder Exn Object Backend
      → Result Added (ServerBuilder Exn Object Backend)
  appended (ok d) b = ok (record b { processor = some d })
  appended (err s) b = err (throws s)

  unfoldable pub add_method :
      ServerBuilder Exn Object Backend
      → Method Object
      → Result Added (ServerBuilder Exn Object Backend)
  unfolding appended
  add_method b m = elim b.processor [
    | none ↦ err faults
    | some d ↦ appended (MethodProcessor.append d m) b
  ]

-- What `create_acceptor_factory()->create` of a backend answers is a parameter.
module _ {Backend Address : Type 0}
    (create_acceptors : Backend → Uri → Result Failure (List Address)) where
  -- The loop of `build`.
  unfoldable pub collect : BackendList Backend → List Uri → Result Failure (List Address)
  collect backends [] = ok []
  collect backends (u ∷ us) =
      let rest = collect backends us in
      failing (AsyncConnect.find backends u.scheme) >>= λ backend.
      create_acceptors backend u >>= λ added. rest >>= λ later. ok (added ++ later)

module _ {Exn : Type 0} where
  abbrev pub stop_shared : Bool → Option (GeneralExecutor Exn) → Option (GeneralExecutor Exn) × Bool
  stop_shared ends none = (none, true)
  stop_shared ends (some e) =
      let (x, returned) = GeneralExecutor.try_stop ends e in (some x, returned)

  -- An exception leaves `build`: the destructor of the server, whose start has begun, stops it. With
  -- the executor that the builder shares with it, and whether the destructor returns.
  unfoldable pub destroyed : Bool → Outcome Exn → Outcome Exn × Option (GeneralExecutor Exn) × Bool
  destroyed ends o =
      let d = ServerImpl.stop o.server in
      let (x, returned) = stop_shared ends o.server.executor in
      (record o { server = d.server; effects = o.effects ++ d.effects }, x, returned)

  unfoldable pub ended :
      Bool → Answer Exn → Outcome Exn → Outcome Exn × Option (GeneralExecutor Exn) × Bool
  unfolding destroyed
  ended ends returns o = (o, o.server.executor, true)
  ended ends ServerImpl.faults o = (o, o.server.executor, true)
  ended ends (ServerImpl.throws s) o = destroyed ends o
  ended ends (start_fails x) o = destroyed ends o
  ended ends (rethrows x) o = destroyed ends o

module _ {Exn Object Backend Address : Type 0} where
  abbrev pub server_of : ServerBuilder Exn Object Backend → List Address → ServerImpl Exn
  server_of b addresses = record {
    acceptors = places 0 addresses;
    has_processor = is_some b.processor;
    executor = b.executor;
    is_started = false;
    is_stopped = false;
  }

  -- What follows the loop; the executor that the builder keeps is the one that the server starts.
  unfoldable pub build_with :
      (ends can_spawn : Bool)
      → ServerBuilder Exn Object Backend
      → Result Failure (List Address)
      → ServerBuilder Exn Object Backend × Built Exn Address
  unfolding ended
  build_with ends can_spawn b (err f) = (b, refuses f)
  build_with ends can_spawn b (ok []) = (b, refuses unusable)
  build_with ends can_spawn b (ok (a ∷ as')) =
      let o = ServerImpl.start can_spawn (server_of b (a ∷ as')) in
      let (after, executor, returned) = ended ends o.answer o in
      (
        record b { processor = none; executor = executor },
        if returned then starts (a ∷ as') after else waits (a ∷ as') after.effects,
      )

module _ {Exn Object Backend Address : Type 0}
    (create_acceptors : Backend → Uri → Result Failure (List Address)) where
  -- ServerBuilderImpl::build, with whether the threads of the executor end and can be made.
  unfoldable pub build :
      (ends can_spawn : Bool)
      → ServerBuilder Exn Object Backend
      → ServerBuilder Exn Object Backend × Built Exn Address
  unfolding collect build_with
  build ends can_spawn b =
      if is_empty b.uris
      then (
        b,
        refuses
            (msgpack_rpc_exception (status precondition_not_met "No URI to listen to was given.")),
      )
      else build_with ends can_spawn b (collect create_acceptors b.backends b.uris)
