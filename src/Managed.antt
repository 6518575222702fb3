-- ===== src/Managed.antt =====
-- self_managing.h: objects that keep themselves alive, and their lock.
pub mod State
pub mod Totals
pub mod Lifetime
pub mod Release
pub mod Safety
mod Tests
