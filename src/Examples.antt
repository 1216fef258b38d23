-- ===== src/Examples.antt =====
-- Concrete inputs, and the theorems at them.
pub mod Service
pub mod Runs
pub mod Parts
pub mod Events
pub mod Sweeps
pub mod Polls
pub mod Programs
pub mod Fakes
