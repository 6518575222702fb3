-- ===== src/Task.antt =====
-- task.h and task.tcc: promise factories that work in one pool of an event loop and settle their promise
-- in another.
pub mod State
pub mod Posting
pub mod Refines
pub mod Course
mod Tests
