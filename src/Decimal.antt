-- ===== src/Decimal.antt =====
-- decimal.h, decimal.tcc and decimal.cpp: unsigned numbers of any length in base ten.
pub mod Digits
pub mod Arithmetic
pub mod Value
pub mod Sum
pub mod Difference
pub mod Product
pub mod Factorial
pub mod Compare
pub mod Convert
pub mod Text
pub mod Integer
mod Tests
pub mod Parallel
pub mod Workers
