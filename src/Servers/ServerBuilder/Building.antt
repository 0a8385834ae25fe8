-- ===== src/Servers/ServerBuilder/Building.antt =====
-- server_builder_impl.h: what a build gives.
use cpp_msgpack_rpc.Common.{
  ◌≡◌, ◌≢◌, refl, sym, ◌∙◌, ap, inl, inr, Bool, true, false, ◌⊎◌, Bool-cases, none, some, List, [],
  ◌∷◌, ◌++◌, map, Result, ok, err, ◌>>=◌, if◌then◌else◌,
}
use cpp_msgpack_rpc.Status.{Failure, failing}
use cpp_msgpack_rpc.Addresses.Uri.{Uri}
use cpp_msgpack_rpc.Transport.AsyncConnect.{BackendList, find}
use cpp_msgpack_rpc.Executors.GeneralExecutor.{GeneralExecutor, is_running}
use cpp_msgpack_rpc.Servers.ServerImpl
use cpp_msgpack_rpc.Servers.ServerImpl.{
  ServerImpl, Outcome, Effect, starts_acceptor, starts_executor, stops_acceptor, stops_executor,
  returns, start_fails,
}
use cpp_msgpack_rpc.Servers.ServerBuilder.Starting.{
  IsServing, twice, start-IsServing, start_again, ended-returns,
}
use cpp_msgpack_rpc.Servers.ServerBuilder.{
  ServerBuilder, Built, refuses, starts, waits, unusable, is_empty, places, collect, ended,
  server_of, build_with, build,
}

abbrev Ok : {E A : Type 0} → A → Result E A
Ok a = ok a

ok_inj : {E A : Type 0} {a b : A} → Ok {E = E} a ≡ Ok b → a ≡ b
ok_inj e = cc

-- What returns a value begins with code that returns one.
value_of :
    {E A B : Type 0} (r : Result E A) (f : A → Result E B) (b : B)
    → (r >>= f) ≡ ok b
    → (a : A) × (r ≡ ok a) × (f a ≡ ok b)
value_of (ok a) f b e = (a, refl, e)
value_of (err s) f b e = cc

module _ {Backend Address : Type 0}
    (create_acceptors : Backend → Uri → Result Failure (List Address)) where
  -- The addresses that the backends of the URIs make, in order.
  pub data Listens (backends : BackendList Backend) : List Uri → List Address → Type 0 where
    no_uris : Listens backends [] []
    one_more :
        (u : Uri) (us : List Uri) (b : Backend) (added later : List Address)
        → failing (find backends u.scheme) ≡ ok b
        → create_acceptors b u ≡ ok added
        → Listens backends us later
        → Listens backends (u ∷ us) (added ++ later)

  collect-Listens :
      (backends : BackendList Backend) (us : List Uri) (found : List Address)
      → collect create_acceptors backends us ≡ ok found
      → Listens backends us found
  unfolding collect
  collect-Listens backends [] found e = rw⁻¹ (ok_inj e) no_uris
  collect-Listens backends (u ∷ us) found e =
      let (b, f, e1) = value_of (failing (find backends u.scheme)) _ found e in
      let (added, g, e2) = value_of (create_acceptors b u) _ found e1 in
      let (later, h, e3) = value_of (collect create_acceptors backends us) _ found e2 in
      rw⁻¹ (ok_inj e3) (one_more u us b added later f g (collect-Listens backends us later h))

  none_empty :
      (backends : BackendList Backend) (us : List Uri) (addresses : List Address)
      → collect create_acceptors backends us ≡ ok addresses
      → addresses ≢ []
      → is_empty us ≡ false
  unfolding collect
  none_empty backends [] addresses e some_address = absurd (some_address (sym (ok_inj e)))
  none_empty backends (u ∷ us) addresses e some_address = refl

abbrev StartsServer : {Exn Address : Type 0} → List Address → Outcome Exn → Built Exn Address
StartsServer addresses o = starts addresses o

returned_starts :
    {Exn Address : Type 0} (returned : Bool) (first addresses : List Address) (p o : Outcome Exn)
    → (if returned then starts first p else waits first p.effects) ≡ StartsServer addresses o
    → (first ≡ addresses) × (p ≡ o)
returned_starts true first addresses p o e = (cc, cc)
returned_starts false first addresses p o e = cc

module _ {Exn Object Backend Address : Type 0} where
  -- What a build that starts a server does.
  record Starts (can_spawn : Bool) (b c : ServerBuilder Exn Object Backend)
      (found : Result Failure (List Address)) (addresses : List Address) (o : Outcome Exn)
      : Type 0 where
    same : found ≡ ok addresses
    some_address : addresses ≢ []
    outcome : o ≡ ServerImpl.start can_spawn (server_of b addresses)
    after : c ≡ record b { processor = none; executor = o.server.executor }

  build_with-Starts :
      (ends can_spawn : Bool) (b c : ServerBuilder Exn Object Backend)
      (found : Result Failure (List Address)) (addresses : List Address) (o : Outcome Exn)
      → build_with ends can_spawn b found ≡ (c, starts addresses o)
      → o.answer ≡ returns
      → Starts can_spawn b c found addresses o
  unfolding build_with
  build_with-Starts ends can_spawn b c (err f) addresses o e h = cc
  build_with-Starts ends can_spawn b c (ok []) addresses o e h = cc
  build_with-Starts ends can_spawn b c (ok (a ∷ more)) addresses o e h =
      let begun : Outcome Exn = ServerImpl.start can_spawn (server_of b (a ∷ more)) in
      let r = ended ends begun.answer begun in
      let kept : record b { processor = none; executor = r.1 } ≡ c = cc in
      let answer = returned_starts r.2 (a ∷ more) addresses r.0 o (ap (λ p. p.1) e) in
      let (same, executor) = ended-returns ends begun.answer begun refl (rw answer.1 h) in
      let outcome : begun ≡ o = sym same ∙ answer.1 in
      record {
        same = ap ok answer.0;
        some_address = λ empty. cc;
        outcome =
            sym outcome ∙ ap (λ found. ServerImpl.start can_spawn (server_of b found)) answer.0;
        after = sym kept ∙ rw (executor, outcome) refl;
      }

module _ {Exn Address : Type 0} where
  -- What a build ends with that starts a server for an executor that has been started before.
  abbrev Twice : (ends : Bool) → List Address → Built Exn Address → Type 0
  Twice ends addresses out =
      let effects : List Effect =
        (map starts_acceptor (places 0 addresses) ++ starts_executor ∷ [])
        ++ (map stops_acceptor (places 0 addresses) ++ stops_executor ∷ []) in
      ((p : Outcome Exn) × (out ≡ starts addresses p)
        × (p.effects ≡ effects)
        × (p.answer ≡ start_fails twice))
      ⊎ ((ends ≡ false) × (out ≡ waits addresses effects))

  twice_of :
      (ends : Bool) (addresses : List Address) (returned : Bool) (p : Outcome Exn)
      → (p.effects
          ≡ (map starts_acceptor (places 0 addresses) ++ starts_executor ∷ [])
            ++ (map stops_acceptor (places 0 addresses) ++ stops_executor ∷ []))
      → p.answer ≡ start_fails twice
      → (returned ≡ false → ends ≡ false)
      → Twice ends addresses (if returned then starts addresses p else waits addresses p.effects)
  twice_of ends addresses true p effects answer h = inl (p, refl, effects, answer)
  twice_of ends addresses false p effects answer h = inr (h refl, rw effects refl)

abbrev Answered :
    {Exn Object Backend Address : Type 0}
    → ServerBuilder Exn Object Backend
    → Built Exn Address
    → ServerBuilder Exn Object Backend × Built Exn Address
Answered b r = (b, r)

refuses_never :
    {Exn Object Backend Address : Type 0} (b c : ServerBuilder Exn Object Backend) (s : Failure)
    (addresses : List Address) (o : Outcome Exn)
    → Answered b (refuses s) ≡ Answered c (starts addresses o)
    → ⊥
refuses_never b c s addresses o e = cc

module _ {Exn Object Backend Address : Type 0}
    (create_acceptors : Backend → Uri → Result Failure (List Address)) where
  build-Starts :
      (ends can_spawn : Bool) (b c : ServerBuilder Exn Object Backend) (addresses : List Address)
      (o : Outcome Exn)
      → build create_acceptors ends can_spawn b ≡ (c, starts addresses o)
      → o.answer ≡ returns
      → Starts can_spawn b c (collect create_acceptors b.backends b.uris) addresses o
  unfolding build
  build-Starts ends can_spawn b c addresses o e h = elim (Bool-cases (is_empty b.uris)) [
    | inl empty ↦ absurd (refuses_never b c _ addresses o (rw empty at e))
    | inr some_uri ↦ build_with-Starts ends can_spawn b c _ addresses o (rw some_uri at e) h
  ]

  -- A build that returns a server has taken the acceptors of every URI, in order and at least one in
  -- all, and has started each of them and then the executor; the builder has no methods left.
  pub build-IsServing :
      (ends can_spawn : Bool) (b c : ServerBuilder Exn Object Backend) (addresses : List Address)
      (o : Outcome Exn)
      → build create_acceptors ends can_spawn b ≡ (c, starts addresses o)
      → o.answer ≡ returns
      → Listens create_acceptors b.backends b.uris addresses
        × (addresses ≢ [])
        × IsServing (places 0 addresses) o
        × (c.processor ≡ none)
  build-IsServing ends can_spawn b c addresses o e answer =
      let s = build-Starts ends can_spawn b c addresses o e answer in
      let server = server_of b addresses in
      let before : (ServerImpl.start can_spawn server).answer ≡ returns = rw s.outcome at answer in
      (
        collect-Listens create_acceptors b.backends b.uris addresses s.same,
        s.some_address,
        rw s.outcome (start-IsServing can_spawn server refl before),
        rw s.after refl,
      )

  -- What a second build does: an acceptor factory throws, or gives no acceptor, or the new server is
  -- started.
  abbrev pub BuildsTwice : (ends can_spawn : Bool) → ServerBuilder Exn Object Backend → Type 0
  BuildsTwice ends can_spawn c =
      ((f : Failure) × (collect create_acceptors c.backends c.uris ≡ err f)
        × (build create_acceptors ends can_spawn c ≡ (c, refuses f)))
      ⊎ ((collect create_acceptors c.backends c.uris ≡ ok [])
          × (build create_acceptors ends can_spawn c ≡ (c, refuses unusable)))
      ⊎ ((addresses : List Address) × (d : ServerBuilder Exn Object Backend) × (x : GeneralExecutor
            Exn)
          × (collect create_acceptors c.backends c.uris ≡ ok addresses)
          × ((out : Built Exn Address) × (build create_acceptors ends can_spawn c ≡ (d, out))
              × Twice ends addresses out)
          × (d.executor ≡ some x)
          × (is_running x ≡ false))

  second_build :
      (ends can_spawn : Bool) (c : ServerBuilder Exn Object Backend) (y : GeneralExecutor Exn)
      (r : Result Failure (List Address))
      → is_empty c.uris ≡ false
      → c.executor ≡ some y
      → y.is_started ≡ true
      → collect create_acceptors c.backends c.uris ≡ r
      → BuildsTwice ends can_spawn c
  unfolding build build_with
  second_build ends can_spawn c y (err f) some_uri shared running e =
      inl (f, e, rw (some_uri, e) refl)
  second_build ends can_spawn c y (ok []) some_uri shared running e =
      inr (inl (e, rw (some_uri, e) refl))
  second_build ends can_spawn c y (ok (a ∷ more)) some_uri shared running e =
      let server = server_of c (a ∷ more) in
      let begun = ServerImpl.start can_spawn server in
      let r = ended ends begun.answer begun in
      let (effects, answer, (x, stopped, idle), h) =
        start_again ends can_spawn server y refl refl shared running in
      inr (
        inr (
          a ∷ more,
          record c { processor = none; executor = r.1 },
          x,
          e,
          (_, rw (some_uri, e) refl, twice_of ends (a ∷ more) r.2 r.0 effects answer h),
          stopped,
          idle,
        ))

module _ {Exn Object Backend Address : Type 0}
    (create_acceptors create_again : Backend → Uri → Result Failure (List Address)) where
  -- A builder that has returned a server returns no other one, whatever the backends answer then and
  -- whether the threads of the executor end. It throws when an acceptor cannot be made or none is;
  -- otherwise it starts the acceptors, the start of the executor, which is that of the first server,
  -- throws, and the destructor of the second server stops the acceptors and the executor, so that it
  -- does not run: then the build throws, or waits for ever for threads that do not end.
  pub build_again :
      (ends can_spawn ends_again spawns_again : Bool) (b c : ServerBuilder Exn Object Backend)
      (addresses : List Address) (o : Outcome Exn)
      → build create_acceptors ends can_spawn b ≡ (c, starts addresses o)
      → o.answer ≡ returns
      → (c.executor ≡ o.server.executor) × BuildsTwice create_again ends_again spawns_again c
  build_again ends can_spawn ends_again spawns_again b c addresses o e answer =
      let s = build-Starts create_acceptors ends can_spawn b c addresses o e answer in
      let before : (ServerImpl.start can_spawn (server_of b addresses)).answer ≡ returns =
        rw s.outcome at answer in
      let serving = start-IsServing can_spawn (server_of b addresses) refl before in
      let (y, there, running) = serving.started_executor in
      let shared : c.executor ≡ some y = rw (s.after, s.outcome) there in
      let some_uri : is_empty c.uris ≡ false =
        rw s.after
          (none_empty create_acceptors b.backends b.uris addresses s.same s.some_address) in
      (
        rw s.after refl,
        second_build create_again ends_again spawns_again c y
            (collect create_again c.backends c.uris) some_uri shared running refl,
      )
