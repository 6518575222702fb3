-- ===== src/Promise.antt =====
-- promise.h, promise/*.h, promise.cpp and promise.tcc: promises, chained by callbacks.
pub mod Types
pub mod State
pub mod Operations
pub mod Chain
pub mod Settling
pub mod Running
pub mod Outcomes
pub mod Replies
pub mod Attached
pub mod Followed
pub mod Then
pub mod Pack
pub mod Binding
pub mod Finalizers
mod Tests
