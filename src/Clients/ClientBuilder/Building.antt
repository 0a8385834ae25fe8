-- ===== src/Clients/ClientBuilder/Building.antt =====
-- client_builder_impl.h: what a build gives.
use cpp_msgpack_rpc.Common.{
  ◌≡◌, ◌≢◌, ◌⊎◌, ap, none, [], if◌then◌else◌, refl, inl, inr, ℕ, Bool, true, false, Bool-cases,
  Option, some, List, Result, ok, err,
}
use cpp_msgpack_rpc.Status.{Status}
use cpp_msgpack_rpc.Addresses.Uri.{Uri}
use cpp_msgpack_rpc.Transport.AsyncConnect.{Attempt, throws, Begun, begun, no_uri, thrown, begin}
use cpp_msgpack_rpc.Transport.AsyncConnect.Beginning.{begin-some, begun-some}
use cpp_msgpack_rpc.Executors.GeneralExecutor
use cpp_msgpack_rpc.Executors.GeneralExecutor.{GeneralExecutor, StartError, is_running, try_stop}
use cpp_msgpack_rpc.Executors.GeneralExecutor.Lifecycle.{try_stop-is_running, try_stop_waits}
use cpp_msgpack_rpc.Servers.ServerBuilder.Starting.{twice}
use cpp_msgpack_rpc.Clients.ClientConnector
use cpp_msgpack_rpc.Clients.ClientConnector.{ClientConnector, Effect, try_connect}
use cpp_msgpack_rpc.Clients.ClientImpl
use cpp_msgpack_rpc.Clients.ClientImpl.{
  ClientImpl, Answer, Exception, Stopped, returns, throws, faults, start_error,
}
use cpp_msgpack_rpc.Clients.ClientBuilder.{
  ClientBuilder, Built, builds, refuses, waits, exception_of, stop_shared, new_connector, client_of,
  destroyed, started, build_with, build, make_client, share,
}

module _ {Exn : Type 0} where
  start-is_started :
      (can_spawn : Bool) (x : GeneralExecutor Exn)
      → (GeneralExecutor.start can_spawn x).0.is_started ≡ true
  unfolding GeneralExecutor.start
  start-is_started can_spawn x = elim (Bool-cases x.is_started) [
    | inl again ↦ simp (again, GeneralExecutor.start)
    | inr first ↦ simp (first, GeneralExecutor.start)
  ]

module _ {Exn Object Message : Type 0} where
  started-executor :
      (before client : ClientImpl Exn Object Message) (asked effects : List Effect)
      (r : GeneralExecutor Exn × Result StartError (Unit {0}))
      → ClientImpl.started before asked r ≡ (client, returns effects)
      → client.executor ≡ some r.0
  unfolding ClientImpl.started
  started-executor before client asked effects (x, ok u) e =
      let same : record before { executor = some x } ≡ client = cc in rw⁻¹ same refl
  started-executor before client asked effects (x, err y) e = cc

abbrev Client :
    {Exn Object Message : Type 0}
    → ClientImpl Exn Object Message
    → List Effect
    → Built Exn Object Message
Client client effects = builds client effects

refused_never :
    {Exn Object Message : Type 0} (returned : Bool) (x : Exception)
    (client : ClientImpl Exn Object Message) (effects : List Effect)
    → (if returned then refuses x else waits) ≡ Client client effects
    → ⊥
refused_never true x client effects e = cc
refused_never false x client effects e = cc

-- The exception of a build whose executor has been started by another client.
abbrev pub reason : Begun → Exception
reason (thrown f) = exception_of f
reason _ = start_error twice

module _ {Exn Object Message Backend : Type 0} where
  -- A build that returns a client, from the client before its start.
  record Starts (can_spawn : Bool) (b c : ClientBuilder Exn Backend)
      (before client : ClientImpl Exn Object Message) (effects : List Effect) (how : Begun)
      : Type 0 where
    searches : how ≡ begun
    outcome : ClientImpl.start can_spawn before ≡ (client, returns effects)
    after : c ≡ share b client.executor

  abbrev Answered :
      ClientBuilder Exn Backend
      → Built Exn Object Message
      → ClientBuilder Exn Backend × Built Exn Object Message
  Answered b r = (b, r)

  stop_shared_never :
      (ends : Bool) (b c : ClientBuilder Exn Backend) (e : Option (GeneralExecutor Exn))
      (x : Exception) (client : ClientImpl Exn Object Message) (effects : List Effect)
      → stop_shared ends b e x ≡ (c, builds client effects)
      → ⊥
  unfolding stop_shared
  stop_shared_never ends b c none x client effects e = cc
  stop_shared_never ends b c (some f) x client effects e =
      refused_never (try_stop ends f).1 x client effects (ap (λ p. p.1) e)

  destroyed_never :
      (ends : Bool) (b c : ClientBuilder Exn Backend) (d : ClientImpl Exn Object Message)
      (x : Exception) (client : ClientImpl Exn Object Message) (effects : List Effect)
      → destroyed ends b d x ≡ (c, builds client effects)
      → ⊥
  unfolding destroyed
  destroyed_never ends b c d x client effects e = by_stop (ClientImpl.stop d).1 refl
    where
      by_stop : (r : Answer (Option (Stopped Exn))) → (ClientImpl.stop d).1 ≡ r → ⊥
      by_stop (returns (some stopped)) h =
          stop_shared_never ends b c d.executor x client effects (rw (h, destroyed) at e)
      by_stop (returns none) h =
          let wrong : Answered b (refuses x) ≡ Answered c (builds client effects) =
            rw (h, destroyed) at e in
          cc
      by_stop (throws y) h =
          let wrong : Answered b (refuses x) ≡ Answered c (builds client effects) =
            rw (h, destroyed) at e in
          cc
      by_stop faults h =
          let wrong : Answered b (refuses x) ≡ Answered c (builds client effects) =
            rw (h, destroyed) at e in
          cc

  started-inv :
      (ends : Bool) (b c : ClientBuilder Exn Backend)
      (r : ClientImpl Exn Object Message × Answer (List Effect))
      (client : ClientImpl Exn Object Message) (effects : List Effect)
      → started ends b r ≡ (c, builds client effects)
      → (r ≡ (client, returns effects)) × (c ≡ share b client.executor)
  unfolding started
  started-inv ends b c (d, returns es) client effects e =
      let same : d ≡ client = cc in
      let asked : es ≡ effects = cc in
      let kept : share b d.executor ≡ c = cc in (rw (same, asked) refl, rw⁻¹ kept (rw same refl))
  started-inv ends b c (d, throws x) client effects e =
      absurd (destroyed_never ends (share b d.executor) c d x client effects e)
  started-inv ends b c (d, faults) client effects e = cc

  build_with-Starts :
      (ends can_spawn : Bool) (b c : ClientBuilder Exn Backend)
      (before client : ClientImpl Exn Object Message) (effects : List Effect) (how : Begun)
      → build_with ends can_spawn b before how ≡ (c, builds client effects)
      → Starts can_spawn b c before client effects how
  unfolding build_with
  build_with-Starts ends can_spawn b c before client effects begun e =
      let (o, a) = started-inv ends b c (ClientImpl.start can_spawn before) client effects e in
      record { searches = refl; outcome = o; after = a }
  build_with-Starts ends can_spawn b c before client effects no_uri e = cc
  build_with-Starts ends can_spawn b c before client effects (thrown f) e = absurd (
      destroyed_never ends b c (record before { is_started = true }) (exception_of f) client effects
        e)

  -- A client that has been started has an executor that has been.
  start-executor :
      (can_spawn : Bool) (first_id : ℕ) (b : ClientBuilder Exn Backend) (k : ClientConnector)
      (client : ClientImpl Exn Object Message) (effects : List Effect)
      → ClientImpl.start can_spawn (client_of first_id b k) ≡ (client, returns effects)
      → client.executor ≡ some (GeneralExecutor.start can_spawn b.executor).0
  unfolding client_of ClientImpl.start ClientImpl.start_parts
  start-executor can_spawn first_id b k client effects e =
      started-executor
        (record (client_of first_id b k) {
          is_started = true;
          connector = some (ClientConnector.start k).0;
        })
        client (ClientConnector.start k).1 effects (GeneralExecutor.start can_spawn b.executor) e

  -- What a build ends with that throws and stops the executor of the builder.
  abbrev pub IsRefused :
      (ends : Bool) → Exception → ClientBuilder Exn Backend × Built Exn Object Message → Type 0
  IsRefused ends x r =
      ((r.1 ≡ refuses x) ⊎ ((ends ≡ false) × (r.1 ≡ waits))) × (is_running r.0.executor ≡ false)

  stop_shared-IsRefused :
      (ends : Bool) (b : ClientBuilder Exn Backend) (e : GeneralExecutor Exn) (x : Exception)
      → IsRefused ends x (stop_shared ends b (some e) x)
  unfolding stop_shared
  stop_shared-IsRefused ends b e x = (
    elim (Bool-cases (try_stop ends e).1) [
      | inl returned ↦ inl (rw returned refl)
      | inr blocked ↦ inr (try_stop_waits ends e blocked, rw blocked refl)
    ],
    try_stop-is_running ends e,
  )

  build_with-IsRefused :
      (ends can_spawn : Bool) (first_id : ℕ) (b : ClientBuilder Exn Backend) (k : ClientConnector)
      (how : Begun)
      → how ≢ no_uri
      → b.executor.is_started ≡ true
      → IsRefused ends (reason how) (build_with ends can_spawn b (client_of first_id b k) how)
  unfolding build_with started destroyed client_of ClientImpl.start ClientImpl.start_parts
      ClientImpl.started GeneralExecutor.start ClientImpl.stop ClientImpl.stop_parts
  build_with-IsRefused ends can_spawn first_id b k begun some_uri h =
      simp h (stop_shared-IsRefused ends b b.executor (start_error twice))
  build_with-IsRefused ends can_spawn first_id b k no_uri some_uri h = absurd (some_uri refl)
  build_with-IsRefused ends can_spawn first_id b k (thrown f) some_uri h =
      stop_shared-IsRefused ends b b.executor (exception_of f)

  make_client-Starts :
      (ends can_spawn : Bool) (first_id : ℕ) (b c : ClientBuilder Exn Backend)
      (client : ClientImpl Exn Object Message) (effects : List Effect) (how : Begun)
      (r : Result Status ClientConnector)
      → make_client ends can_spawn first_id b how r ≡ (c, builds client effects)
      → (k : ClientConnector) × (r ≡ ok k)
        × Starts can_spawn b c (client_of first_id b k) client effects how
  unfolding make_client
  make_client-Starts ends can_spawn first_id b c client effects how (ok k) e =
      (k, refl, build_with-Starts ends can_spawn b c (client_of first_id b k) client effects how e)
  make_client-Starts ends can_spawn first_id b c client effects how (err s) e = cc

module _ {Exn Object Message Backend Connector Conn : Type 0}
    (create_connector : Backend → Result Status Connector)
    (connect : Connector → Uri → Attempt Conn) where
  build-Starts :
      (ends can_spawn : Bool) (first_id : ℕ) (b c : ClientBuilder Exn Backend)
      (client : ClientImpl Exn Object Message) (effects : List Effect)
      → build create_connector connect ends can_spawn first_id b ≡ (c, builds client effects)
      → (k : ClientConnector) × (new_connector b.config ≡ ok k)
        × Starts can_spawn b c
            (client_of first_id b k)
            client
            effects
            (begin create_connector connect b.backends b.config.uris)
  unfolding build
  build-Starts ends can_spawn first_id b c client effects e =
      make_client-Starts ends can_spawn first_id b c client effects _ _ e

  pub build_ok :
      (ends can_spawn : Bool) (first_id : ℕ) (b : ClientBuilder Exn Backend) (k : ClientConnector)
      → new_connector b.config ≡ ok k
      → begin create_connector connect b.backends b.config.uris ≡ begun
      → build create_connector connect ends can_spawn first_id b
        ≡ started ends b (
            ClientImpl.start can_spawn
              (client_of {Object = Object} {Message = Message} first_id b k))
  unfolding build make_client build_with
  build_ok ends can_spawn first_id b k made searches = rw (made, searches) refl

module _ {Exn Object Message Backend Connector Conn : Type 0}
    (create_connector : Backend → Result Status Connector)
    (connect connect_again : Connector → Uri → Attempt Conn) where
  -- A builder that has returned a client makes a connector, which begins to connect, when it is
  -- asked for another client, and then throws the exception of that beginning, or else that of the
  -- start of the executor, which the two clients share; but before that the destructor of the second
  -- client stops the executor, so that the first client does not run, and the build waits for ever if
  -- the threads of the executor do not end.
  pub client_build_again :
      (ends can_spawn ends_again spawns_again : Bool) (first_id second_id : ℕ)
      (b c : ClientBuilder Exn Backend) (client : ClientImpl Exn Object Message)
      (effects : List Effect)
      → build create_connector connect ends can_spawn first_id b ≡ (c, builds client effects)
      → (client.executor ≡ some c.executor)
        × IsRefused {Object = Object} {Message = Message} ends_again
            (reason (begin create_connector connect_again c.backends c.config.uris))
            (build create_connector connect_again ends_again spawns_again second_id c)
  unfolding build make_client
  client_build_again ends can_spawn ends_again spawns_again first_id second_id b c client effects
        e =
      let (k, made, s) =
        build-Starts create_connector connect ends can_spawn first_id b c client effects e in
      let there = start-executor can_spawn first_id b k client effects s.outcome in
      let kept : c ≡ share b (some (GeneralExecutor.start can_spawn b.executor).0) =
        rw there at s.after in
      let is_started : c.executor.is_started ≡ true =
        rw kept (start-is_started can_spawn b.executor) in
      let made_again : new_connector c.config ≡ ok k = rw kept made in
      let some_uri : c.config.uris ≢ [] =
        rw kept (begun-some create_connector connect b.backends b.config.uris s.searches) in
      (
        rw kept there,
        rw made_again (
            build_with-IsRefused ends_again spawns_again second_id c k
              (begin create_connector connect_again c.backends c.config.uris)
              (begin-some create_connector connect_again c.backends c.config.uris some_uri)
              is_started),
      )
