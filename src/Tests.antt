-- ===== src/Tests.antt =====
-- Concrete inputs: an instance of the msgpack library and of the allocator, and the theorems at
-- values of them.
mod Text
mod Toy
mod Laws
mod Messages
mod Clients
mod Transport
mod Servers
mod Decimal
mod Matcher
mod Util
mod Addresses
mod Backends
mod Config
mod Typed
mod Builders
