-- ===== src/Continuous.antt =====
-- continuous/: the test that sends a transaction for every shutterized block and follows it.
pub mod Tx
pub mod Watch
pub mod Status
pub mod System
pub mod Send
pub mod Blocks
pub mod Samples
pub mod Examples
pub mod SendExamples
pub mod ProgressExamples
pub mod RunExamples
pub mod ConfigSamples
pub mod ConfigExamples
pub mod Forfeit
pub mod Accounts
pub mod Machine
pub mod Settings
pub mod Configure
pub mod Connection
pub mod Running
pub mod Listing
pub mod RunLoop
