-- ===== src/Binary.antt =====
-- messages/impl/sharable_binary_header.h, serialization_buffer.cpp, serialized_message.cpp:
-- the memory that messages are written to and shared in.
pub mod Header
pub mod Growth
pub mod Buffer
pub mod Sharing
