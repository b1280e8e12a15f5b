-- ===== src/Stress.antt =====
-- stress/stress_test.go: the stress tests, which send encrypted transactions in batches.
pub mod World
pub mod Transact
pub mod Connect
pub mod Setup
pub mod Environment
pub mod Stored
pub mod Submits
pub mod Signing
pub mod Batches
pub mod Limit
pub mod Spread
pub mod Housekeeping
pub mod Exceeds
pub mod Cases
pub mod Duplicate
pub mod Sent
pub mod Whole
pub mod Samples
pub mod Examples
