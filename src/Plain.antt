-- ===== src/Plain.antt =====
-- The plain tests: config/, requests/, tests/, and the modes of main.go.
pub mod Config
pub mod Requests
pub mod SendWait
pub mod Modes
pub mod Examples
