-- ===== src/Transport/Connection/Chunking.antt =====
-- connection.h, message_parser.cpp: the bytes of a stream in several reads.
use mathlib.Core.Option
use cpp_msgpack_rpc.Common.{
  ℕ, zero, suc, ◌<◌, ◌≡◌, refl, sym, ap, ◌∙◌, Option, none, some, List, [], ◌∷◌, ◌++◌, length,
  length-append, Result, ok, err, ◌>>=◌, arith,
}
use cpp_msgpack_rpc.Status.{Status}
use cpp_msgpack_rpc.Messages.Msgpack.{Msgpack, IsMsgpack, Unpacked, incomplete, broken, unpacked}
use cpp_msgpack_rpc.Messages.Parsed.{ParsedMessage}
use cpp_msgpack_rpc.Messages.Parse.{parse_message_from_object}
use cpp_msgpack_rpc.Messages.MessageParser.{MessageParser, try_parse, consumed}
use cpp_msgpack_rpc.Transport.Connection.Parsing.{Run, add_message, after_try, parse_all, run}

module _ (M : Msgpack) (laws : IsMsgpack M) where
  -- The cases of `try_parse`, with the bytes that are left.
  data Try (p : MessageParser)
      : MessageParser × Result Status (Option (ParsedMessage M.Object)) → Type 0 where
    waits : M.unpack p.pending ≡ incomplete → Try p (p, ok none)
    refuses :
        (q : MessageParser) (e : Status)
        → ((more : List ℕ) → try_parse M (consumed p more) ≡ (consumed q more, err e))
        → Try p (q, err e)
    takes :
        (q : MessageParser) (m : ParsedMessage M.Object)
        → length q.pending < length p.pending
        → ((more : List ℕ) → try_parse M (consumed p more) ≡ (consumed q more, ok (some m)))
        → Try p (q, ok (some m))

  try_parse-Try : (p : MessageParser) → Try p (try_parse M p)
  unfolding try_parse
  try_parse-Try p = go (M.unpack p.pending) refl
    where
      parsed :
          (o : M.Object) (rest : List ℕ)
          → M.unpack p.pending ≡ unpacked o rest
          → (r : Result Status (ParsedMessage M.Object)) → parse_message_from_object M o ≡ r
          → Try p (record p { pending = rest }, r >>= λ m. ok (some m))
      parsed o rest e (ok m) em =
          takes _ m (laws.unpack-shrinks p.pending rest o e)
            (λ more. rw (try_parse, laws.unpack-extend p.pending more rest o e, em))
      parsed o rest e (err s) em =
          refuses _ s (λ more. rw (try_parse, laws.unpack-extend p.pending more rest o e, em))

      go : (u : Unpacked M.Object) → M.unpack p.pending ≡ u → Try p (try_parse M p)
      go incomplete e = rw (e, try_parse) (waits e)
      go broken e =
          rw (e, try_parse)
            (refuses _ _ (λ more. rw (try_parse, laws.broken-extend p.pending more e)))
      go (unpacked o rest) e =
          rw (e, try_parse) (parsed o rest e (parse_message_from_object M o) refl)

  -- Any two amounts of fuel that are enough agree.
  parse_all_fuel :
      (f g : ℕ) (p : MessageParser)
      → length p.pending < f
      → length p.pending < g
      → parse_all M f p ≡ parse_all M g p
  unfolding parse_all
  parse_all_fuel zero g p hf hg = absurd (omega arith)
  parse_all_fuel (suc f) zero p hf hg = absurd (omega arith)
  parse_all_fuel (suc f) (suc g) p hf hg = go (parse_all_fuel f g) (try_parse-Try p)
    where
      go :
          ((q : MessageParser)
            → length q.pending < f
            → length q.pending < g
            → parse_all M f q ≡ parse_all M g q)
          → {r : MessageParser × Result Status (Option (ParsedMessage M.Object))} → Try p r
          → after_try M (parse_all M f) r ≡ after_try M (parse_all M g) r
      go rec (waits e) = refl
      go rec (refuses q e h) = refl
      go rec (takes q m lt h) = ap (Option.map (add_message m)) (rec q (omega arith) (omega arith))

  parse_all-run : (f : ℕ) (p : MessageParser) → length p.pending < f → parse_all M f p ≡ run M p
  unfolding run
  parse_all-run f p h = parse_all_fuel f (suc (length p.pending)) p h (omega arith)

  prepend : List (ParsedMessage M.Object) → Run M.Object → Run M.Object
  prepend ms r = record r { messages = ms ++ r.messages }

  -- Going on after a run, when more bytes have come in: a failure is final.
  resume_run : Run M.Object → Option Status → List ℕ → Option (Run M.Object)
  resume_run r none more = Option.map (prepend r.messages) (run M (consumed r.parser more))
  resume_run r (some e) more = some (record r { parser = consumed r.parser more })

  pub resume : Option (Run M.Object) → List ℕ → Option (Run M.Object)
  unfolding resume_run prepend
  resume none more = none
  resume (some r) more = resume_run r r.failure more

  map-add_message-prepend :
      (m : ParsedMessage M.Object) (ms : List (ParsedMessage M.Object)) (r : Option (Run M.Object))
      → Option.map (prepend (m ∷ ms)) r ≡ Option.map (add_message m) (Option.map (prepend ms) r)
  unfolding prepend
  map-add_message-prepend m ms none = refl
  map-add_message-prepend m ms (some r) = refl

  map-prepend-nil : (r : Option (Run M.Object)) → Option.map (prepend []) r ≡ r
  unfolding prepend
  map-prepend-nil none = refl
  map-prepend-nil (some r) = refl

  resume-add_message :
      (m : ParsedMessage M.Object) (r : Option (Run M.Object)) (more : List ℕ)
      → resume (Option.map (add_message m) r) more ≡ Option.map (add_message m) (resume r more)
  unfolding resume
  resume-add_message m none more = refl
  resume-add_message m (some r) more = go r.failure
    where
      go :
          (o : Option Status)
          → resume_run (add_message m r) o more ≡ Option.map (add_message m) (resume_run r o more)
      go none = map-add_message-prepend m r.messages (run M (consumed r.parser more))
      go (some e) = refl

  resume-waits :
      (p : MessageParser) (more : List ℕ)
      → resume (some (record { parser = p; messages = []; failure = none })) more
        ≡ run M (consumed p more)
  unfolding resume
  resume-waits p more = map-prepend-nil (run M (consumed p more))

  after_try-run :
      (g : ℕ) (p : MessageParser)
      → length p.pending < suc g
      → after_try M (parse_all M g) (try_parse M p) ≡ run M p
  unfolding parse_all
  after_try-run g p h = parse_all-run (suc g) p h

  -- One round with more bytes, given what the later rounds do.
  after_try-consumed :
      (f g : ℕ) (p : MessageParser) (more : List ℕ)
      → length (p.pending ++ more) < suc g
      → ((q : MessageParser)
          → length q.pending < length p.pending
          → parse_all M g (consumed q more) ≡ resume (parse_all M f q) more)
      → {r : MessageParser × Result Status (Option (ParsedMessage M.Object))} → Try p r
      → after_try M (parse_all M g) (try_parse M (consumed p more))
        ≡ resume (after_try M (parse_all M f) r) more
  after_try-consumed f g p more enough later (waits e) =
      after_try-run g (consumed p more) enough ∙ sym (resume-waits p more)
  after_try-consumed f g p more enough later (refuses q e h) = rw (h more) (unfold resume in refl)
  after_try-consumed f g p more enough later (takes q m lt h) = rw (h more) (
      ap (Option.map (add_message m)) (later q lt)
      ∙ sym (resume-add_message m (parse_all M f q) more))

  parse_all-consumed :
      (f g : ℕ) (p : MessageParser) (more : List ℕ)
      → length p.pending < f
      → length (p.pending ++ more) < g
      → parse_all M g (consumed p more) ≡ resume (parse_all M f p) more
  unfolding parse_all
  parse_all-consumed zero g p more hf hg = absurd (omega arith)
  parse_all-consumed (suc f) zero p more hf hg = absurd (omega arith)
  parse_all-consumed (suc f) (suc g) p more hf hg =
      after_try-consumed f g p more hg
        (λ q lt.
          parse_all-consumed f g q more (omega arith)
            (omega (arith, length-append q.pending more, length-append p.pending more)))
        (try_parse-Try p)

  -- The messages do not depend on how the bytes are cut into reads, if the library keeps its laws:
  -- reading some bytes and then more of them gives what reading them at once gives.
  pub run-consumed :
      (p : MessageParser) (more : List ℕ) → run M (consumed p more) ≡ resume (run M p) more
  unfolding run
  run-consumed p more =
      parse_all-consumed (suc (length p.pending)) (suc (length (p.pending ++ more))) p more
        (omega arith) (omega arith)

  -- The loop ends: with its fuel it always gives a result.
  parse_all_total :
      (f : ℕ) (p : MessageParser)
      → length p.pending < f
      → (r : Run M.Object) × (parse_all M f p ≡ some r)
  unfolding parse_all
  parse_all_total zero p h = absurd (omega arith)
  parse_all_total (suc f) p enough = go (parse_all_total f) (try_parse-Try p)
    where
      go :
          ((q : MessageParser)
            → length q.pending < f
            → (r : Run M.Object) × (parse_all M f q ≡ some r))
          → {t : MessageParser × Result Status (Option (ParsedMessage M.Object))} → Try p t
          → (r : Run M.Object) × (after_try M (parse_all M f) t ≡ some r)
      go rec (waits e) = (_, refl)
      go rec (refuses q e h) = (_, refl)
      go rec (takes q m lt h) =
          let (r, e) = rec q (omega arith) in (add_message m r, ap (Option.map (add_message m)) e)

  -- The loop over the bytes that have been read comes to its end, if the library keeps its laws: as
  -- much fuel as there are bytes, and one more, is enough.
  pub run_total : (p : MessageParser) → (r : Run M.Object) × (run M p ≡ some r)
  unfolding run
  run_total p = parse_all_total (suc (length p.pending)) p (omega arith)
