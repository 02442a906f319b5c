-- ===== src/Server/Progress.antt =====
-- The progress of the writes from the queues: tyfirc-server/tyfirc-session.cpp.
pub mod Busy
pub mod Drained
