-- ===== src/Stream.antt =====
-- promise_stream.h, promise_stream/*.h, promise_stream.cpp and promise_stream.tcc: a stream of data
-- from a producer to a consumer, ended by one result.
pub mod Types
pub mod StateBase
pub mod State
pub mod Table
pub mod Flags
pub mod Order
pub mod Drain
pub mod Chained
pub mod Operations
pub mod History
pub mod Stopping
pub mod Failure
mod Tests
