-- ===== src/Worker.antt =====
-- native/src/worker.rs: the loop of an engine's thread over its jobs.
pub mod Loop
pub mod Laws
