-- ===== src/Examples.antt =====
-- The examples of the repository.
pub mod Demo
