-- ===== src/Thread.antt =====
-- The thread pool under Src/Thread.
pub mod ThreadPool
