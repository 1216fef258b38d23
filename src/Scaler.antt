-- ===== src/Scaler.antt =====
-- internal/scaler: the life of one job attempt (job.go), and the dispatch of events (scaler.go).
pub mod World
pub mod Keeps
pub mod Frame
pub mod Ensures
pub mod Returns
pub mod Release
pub mod NotOurs
pub mod Durability
pub mod Settled
pub mod Cleanup
pub mod Create
pub mod Boot
pub mod Monitor
pub mod Attempt
pub mod Dispatch
