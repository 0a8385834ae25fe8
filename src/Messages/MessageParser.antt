-- ===== src/Messages/MessageParser.antt =====
-- message_parser.cpp: the bytes read from a peer, and the messages in them.
use cpp_msgpack_rpc.Common.{ℕ, Option, none, some, List, [], ◌++◌, Result, ok, err, ◌>>=◌}
use cpp_msgpack_rpc.Status.{Status, status, invalid_message}
use cpp_msgpack_rpc.Messages.Msgpack.{Msgpack, Unpacked, incomplete, broken, unpacked}
use cpp_msgpack_rpc.Messages.Parsed.{ParsedMessage}
use cpp_msgpack_rpc.Messages.Parse.{parse_message_from_object}

-- `pending` is what the unpacker holds and has not returned as an object yet.
pub record MessageParser : Type 0 where
  pub read_buffer_size : ℕ
  pub pending : List ℕ

abbrev pub new_parser : ℕ → MessageParser
new_parser n = record { read_buffer_size = n; pending = [] }

-- The size of the buffer that the next read is given.
abbrev pub prepare_buffer : MessageParser → ℕ
prepare_buffer p = p.read_buffer_size

-- The bytes are those that a read has put into the buffer.
abbrev pub consumed : MessageParser → List ℕ → MessageParser
consumed p bytes = record p { pending = p.pending ++ bytes }

module _ (M : Msgpack) where
  -- The outcome of the unpacker, and the parser after it.
  parse_unpacked :
      MessageParser
      → Unpacked M.Object
      → MessageParser × Result Status (Option (ParsedMessage M.Object))
  parse_unpacked p incomplete = (p, ok none)
  parse_unpacked p broken = (p, err (status invalid_message "Failed to parse a message."))
  parse_unpacked p (unpacked o rest) =
      (record p { pending = rest }, parse_message_from_object M o >>= λ m. ok (some m))

  unfoldable pub try_parse :
      MessageParser → MessageParser × Result Status (Option (ParsedMessage M.Object))
  unfolding parse_unpacked
  try_parse p = parse_unpacked p (M.unpack p.pending)
