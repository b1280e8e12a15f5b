-- ===== src/Collector.antt =====
-- continuous/collector.go: the analysis of a range of blocks.
pub mod Cache
pub mod Events
pub mod Pairing
pub mod Ratios
pub mod Credentials
pub mod Blame
pub mod Stats
pub mod Prime
pub mod Heads
pub mod Printing
pub mod HeadsExamples
pub mod RunCollector
pub mod Samples
pub mod Examples
pub mod StatsExamples
