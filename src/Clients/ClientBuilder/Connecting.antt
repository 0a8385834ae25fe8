-- ===== src/Clients/ClientBuilder/Connecting.antt =====
-- client_builder_impl.h: the first client of a builder with the default backends.
use cpp_msgpack_rpc.Common.{Bool, true, List}
use cpp_msgpack_rpc.Addresses.Uri.{Uri, Library}
use cpp_msgpack_rpc.Transport.AsyncConnect.{Begun, begin}
use cpp_msgpack_rpc.Transport.Backends.{Asio, create_connector, connect}
use cpp_msgpack_rpc.Transport.Backends.Search.{default_backends}
use cpp_msgpack_rpc.Executors.GeneralExecutor
use cpp_msgpack_rpc.Executors.GeneralExecutor.{GeneralExecutor}
use cpp_msgpack_rpc.Clients.ClientConnector
use cpp_msgpack_rpc.Clients.ClientConnector.{ClientConnector, Effect}
use cpp_msgpack_rpc.Clients.ClientImpl
use cpp_msgpack_rpc.Clients.ClientImpl.{ClientImpl}
use cpp_msgpack_rpc.Clients.ClientBuilder.{ClientBuilder}

module _ {Endpoint Socket : Type 0} (l : Library) (asio : Asio Endpoint Socket)
    (is_set : Bool) where
  abbrev beginning : List Uri → Begun
  beginning us = begin (create_connector true) (connect l asio is_set) default_backends us
