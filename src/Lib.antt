-- ===== src/Lib.antt =====
-- Verification of msgpack-rpc, a library for RPC with MessagePack: clients and servers send each
-- other requests, responses and notifications over TCP or Unix sockets.
--
-- The parts and how they interact. A client (src/msgpack_rpc/clients/impl) has a connector that
-- keeps one connection open, a list of the calls that wait for their responses and a sender that
-- writes messages one after another. A server (src/msgpack_rpc/servers) has acceptors, and for each
-- connection an object that hands received requests to a processor of methods
-- (src/msgpack_rpc/methods, include/msgpack_rpc/methods) on the threads of an executor
-- (src/msgpack_rpc/executors) and writes the responses one after another. Below both lie the
-- connections (src/msgpack_rpc/transport) and the parser and serializer of messages
-- (src/msgpack_rpc/messages, include/msgpack_rpc/messages).
--
-- The files and the code:
--   Common          shared names, numbers and lists, and `Result` for code that may throw.
--   Status          common/status.cpp, common/status_code.cpp.
--   Binary.Header   messages/impl/sharable_binary_header.h: the block with its header, and
--                   `expand_sharable_binary`; its loop is in Binary.Growth.
--   Binary.Buffer   messages/impl/serialization_buffer.cpp and the bytes of a SerializedMessage.
--   Binary.Sharing  messages/serialized_message.cpp, copies of messages that share a block.
--   Messages        Msgpack is the msgpack library, a parameter; Parsed has the message types,
--                   Parse is messages/impl/parse_message_from_object.h, Serialize is
--                   include/msgpack_rpc/messages/message_serializer.h, MessageParser is
--                   messages/message_parser.cpp.
--   Transport       StateMachine is transport/background_task_state_machine.h, Connection is
--                   transport/connection.h (its loop over messages is in Connection.Parsing),
--                   AsyncConnect is transport/async_connect.h with transport/backend_list.h,
--                   Backends is transport/tcp and transport/unix_socket, Acceptor is
--                   transport/acceptor.h with transport/connection_list.h.
--   Executors       executors/general_executor.cpp.
--   Clients         clients/impl: request_id_generator.h, call_future_impl.h, call_list.h,
--                   received_message_processor.h, sent_message_queue.h, message_sender.h,
--                   reconnection_timer.h, client_connector.h, client_impl.h and
--                   client_builder_impl.h, a module for each.
--   Methods         methods/method_dict.h, methods/method_processor_impl.h,
--                   include/msgpack_rpc/methods/functional_method.h.
--   Servers         ServerConnection is servers/server_connection.h, ServerImpl is
--                   servers/impl/server_impl.h, ServerBuilder is
--                   servers/impl/server_builder_impl.h.
--   Addresses       Uri is addresses/uri.cpp, whose regular expressions are sequences of pieces
--                   in Regex.
--   Config          Settings has the configurations with their setters, Toml is config/toml, and
--                   Parser is config/toml/parse_toml_root.h with config/config_parser.cpp.
--   Util            SharedObjects is include/msgpack_rpc/util/impl/shared_objects.h, FormatMsgpackObject is
--                   util/format_msgpack_object_to.h.
--   RemoteCall      a request through the serializer, the parser, the processor and back; Typed is
--                   include/msgpack_rpc/clients/call_future.h with clients/server_exception.cpp.
--   Tests           instances of the libraries that are parameters, and examples.
--
-- How it is modelled. A class is a record of the fields that have a part in its behaviour, and an
-- operation a function from the state to the state after it with what it returns or throws; what it
-- asks of other parts (a read, a post, a close, a callback) comes back as a list, in order.
-- Completions of asio are events. Where an invariant speaks of all orders, a history is a list of
-- events or of turns of threads, or a step relation. Under a mutex, or between two atomic accesses,
-- a step is not divided. A pointer that may be null is an `Option`, and following a null one is an
-- answer of its own. `size_t` has 64 bits, message IDs and reference counts have 32, with the
-- wrap-around written out. The stop of an executor waits for its threads, which end when nothing is
-- pending; `stop` is what is left then, and `try_stop` is told whether they end.
--
-- Fuel: the loop of `expand_sharable_binary` has as much as there are bits in a word, which is
-- enough for sizes up to 2^63; the loop over received messages has as much as there are bytes, and
-- one more, which is enough since a message takes a byte. The search for a buffer in a pool of shared
-- objects has as much as there are buffers.
--
-- Parameters: the msgpack library (objects, the packer and the unpacker, with the laws of
-- `IsMsgpack`), the allocator (`AllocatorWorks`: it meets every request), RE2 and fmt for URIs
-- (`IsLawful`: a match is found when there is one, and numbers are printed as they are read), asio
-- for the backends, the TOML library, and the functions that methods are made of.
--
-- Not modelled: the addresses, which wrap endpoints of asio, and logging. Operations of one client or
-- server that run at the same time are not modelled, except inside the message sender and the
-- connections of a server. The calls of asio that close a socket are taken not to throw.
mod Common
pub mod Status
pub mod Binary
pub mod Messages
pub mod Transport
pub mod Executors
pub mod Clients
pub mod Servers
pub mod Methods
pub mod RemoteCall
pub mod Util
pub mod Addresses
pub mod Config
mod Tests
