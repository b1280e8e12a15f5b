-- ===== src/Utils.antt =====
-- utils/utils.go: the helpers that the test programs share.
pub mod Prefix
pub mod Account
pub mod Gas
pub mod Difference
pub mod Wait
pub mod Eon
pub mod Examples
pub mod Repair
pub mod Contracts
pub mod Receipts
pub mod PkFile
