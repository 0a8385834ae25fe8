-- ===== src/Executors.antt =====
-- executors/: the threads that run the tasks, and their contexts.
pub mod GeneralExecutor
