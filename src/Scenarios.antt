-- ===== src/Scenarios.antt =====
-- cornelich_test: the test programs that run over a whole chronicle, and what the
-- tests write. What the test framework reports
-- is whether all that is required holds.
pub mod JavaChronicle
pub mod CycleBoundary
pub mod TestData
