-- ===== src/Pallet.antt =====
-- pallets/aggregator/src/lib.rs: the pallet.
pub mod State
pub mod Config
pub mod BestPaths
pub mod MonitoredPairs
pub mod Trade
pub mod Validate
pub mod Offchain
pub mod Chain
pub mod Weights
