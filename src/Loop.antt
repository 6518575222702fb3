-- ===== src/Loop.antt =====
-- event_loop.h and event_loop.cpp, with the concurrent queue and the scoped counter they stand on.
pub mod Queue
pub mod Counter
pub mod Locks
pub mod Rounds
pub mod Locked
pub mod Pistol
pub mod Ready
pub mod Synchronous
pub mod Parallel
pub mod Pools
pub mod Joining
pub mod Places
pub mod Balance
pub mod Idle
pub mod Join
pub mod Handling
pub mod Returned
pub mod Starting
pub mod Leaving
pub mod Destroyed
mod Tests
mod PoolTests
