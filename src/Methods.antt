-- ===== src/Methods.antt =====
-- methods/: the methods of a server and the processor that calls them.
pub mod MethodException
pub mod FunctionalMethod
pub mod MethodProcessor
