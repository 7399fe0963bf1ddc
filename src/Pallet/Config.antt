-- ===== src/Pallet/Config.antt =====
-- pallets/aggregator/src/lib.rs: the constants of the pallet's `Config`, and runtime/src/lib.rs:
-- their values in the runtime.
use substrate_aggregator.Prelude.{ℕ, ◌+◌, ◌%◌, ◌^◌}

-- `block_bits` is the width of `T::BlockNumber`.
pub record Config : Type 0 where
  pub block_bits : ℕ
  pub offchain_trigger_delay : ℕ
  pub max_tx_pool_stay_time : ℕ
  pub unsigned_priority : ℕ
  pub price_change_tolerance : ℕ

-- `+` on block numbers, which wraps round in a release build.
abbrev pub add_blocks : Config → ℕ → ℕ → ℕ
add_blocks c a b = (a + b) % 2 ^ c.block_bits

-- The runtime's block numbers are `u32`.
abbrev pub runtime_config : Config
runtime_config = record {
  block_bits = 32;
  offchain_trigger_delay = 3;
  max_tx_pool_stay_time = 3;
  unsigned_priority = 2 ^ 20;
  price_change_tolerance = 1;
}
