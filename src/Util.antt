-- ===== src/Util.antt =====
-- include/msgpack_rpc/util and src/msgpack_rpc/util.
pub mod SharedObjects
pub mod FormatMsgpackObject
