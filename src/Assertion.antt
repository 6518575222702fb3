-- ===== src/Assertion.antt =====
-- assertion.h and assertion.cpp: the table of tests and their results.
pub mod State
pub mod Results
pub mod Report
pub mod Printed
pub mod Summary
pub mod Object
mod Tests
