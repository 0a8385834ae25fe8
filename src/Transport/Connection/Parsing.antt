-- ===== src/Transport/Connection/Parsing.antt =====
-- The loop of `process_read_bytes` that takes the messages out of the bytes that have come in.
use mathlib.Core.Option
use cpp_msgpack_rpc.Common.{
  ℕ, zero, suc, Option, none, some, List, [], ◌∷◌, length, Result, ok, err,
}
use cpp_msgpack_rpc.Status.{Status}
use cpp_msgpack_rpc.Messages.Msgpack.{Msgpack}
use cpp_msgpack_rpc.Messages.Parsed.{ParsedMessage}
use cpp_msgpack_rpc.Messages.MessageParser.{MessageParser, try_parse}

-- The parser after the loop, the messages that were handed to the callback, and the status of
-- an exception that ended the loop.
pub record Run (Object : Type 0) : Type 0 where
  pub parser : MessageParser
  pub messages : List (ParsedMessage Object)
  pub failure : Option Status

abbrev pub add_message : {Object : Type 0} → ParsedMessage Object → Run Object → Run Object
add_message m r = record r { messages = m ∷ r.messages }

module _ (M : Msgpack) where
  -- One round, with the rounds after it.
  abbrev pub after_try :
      (MessageParser → Option (Run M.Object))
      → MessageParser × Result Status (Option (ParsedMessage M.Object))
      → Option (Run M.Object)
  after_try next (p, err e) = some (record { parser = p; messages = []; failure = some e })
  after_try next (p, ok none) = some (record { parser = p; messages = []; failure = none })
  after_try next (p, ok (some m)) = Option.map (add_message m) (next p)

  unfoldable pub parse_all : ℕ → MessageParser → Option (Run M.Object)
  parse_all zero p = none
  parse_all (suc fuel) p = after_try (parse_all fuel) (try_parse M p)

  -- A message takes a byte at least, so this fuel is enough.
  unfoldable pub run : MessageParser → Option (Run M.Object)
  unfolding parse_all
  run p = parse_all (suc (length p.pending)) p
