-- ===== src/Combine.antt =====
-- promise/combiners.h and the combine states of promise.tcc: one promise for the results of many.
pub mod State
pub mod Slots
pub mod Steps
pub mod Schedule
pub mod Outcome
pub mod Tuple
pub mod Erased
pub mod Gather
pub mod Typed
mod TupleTests
mod Tests
