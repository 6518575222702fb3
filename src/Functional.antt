-- ===== src/Functional.antt =====
-- functional.h and functional.tcc: partial application of functions, and the chain operator.
pub mod Curried
pub mod Delivery
pub mod Shared
mod Tests
