-- ===== src/Pallet/Weights.antt =====
-- pallets/aggregator/src/weights.rs: the weights of the calls, and pallets/aggregator/src/lib.rs: which of
-- them each call is annotated with.
use Prim.Native.Nat.{min}
use substrate_aggregator.Prelude.{ℕ, ◌+◌, ◌-◌, ◌^◌, length}
use substrate_aggregator.Pallet.Validate.{
  Call, ocw_submit_best_paths_changes, submit_monitored_pairs, add_whitelisted_offchain_authority,
  trade,
}

-- The weights of database reads and writes, by their number: those of the runtime, or of RocksDB.
pub record DbWeight : Type 0 where
  pub reads : ℕ → ℕ
  pub writes : ℕ → ℕ

-- `saturating_add` on `u64`.
abbrev pub saturating_add : ℕ → ℕ → ℕ
saturating_add a b = min (a + b) (2 ^ 64 - 1)

abbrev pub with_accesses : DbWeight → (base accesses : ℕ) → ℕ
with_accesses db base accesses =
    saturating_add (saturating_add base (db.reads accesses)) (db.writes accesses)

-- The trait `WeightInfo`, whose lengths the implementations do not use.
pub record WeightInfo : Type 0 where
  pub add_price_pair_nonexisting : ℕ
  pub add_price_pair_existing : ℕ
  pub remove_price_pair : ℕ
  pub submit_monitored_pairs_weight : (i : ℕ) → ℕ
  pub ocw_submit_best_paths_changes_weight : (i : ℕ) → ℕ
  pub add_whitelisted_offchain_authority_weight : ℕ
  pub trade_weight : ℕ

-- `SubstrateWeight` and the implementation for `()`, which differ in the weights of the database.
abbrev pub substrate_weight : DbWeight → WeightInfo
substrate_weight db = record {
  add_price_pair_nonexisting = with_accesses db 155_000_000 1;
  add_price_pair_existing = with_accesses db 51_000_000 1;
  remove_price_pair = with_accesses db 156_000_000 1;
  submit_monitored_pairs_weight = λ i. with_accesses db 20_827_000_000 250;
  ocw_submit_best_paths_changes_weight = λ i. with_accesses db 143_000_000 1;
  add_whitelisted_offchain_authority_weight = with_accesses db 138_000_000 1;
  trade_weight = with_accesses db 138_000_000 1;
}

-- The weight that each call is annotated with.
abbrev pub call_weight :
    {Account Public Signature C A : Type 0} → WeightInfo → Call Account Public Signature C A → ℕ
call_weight w (ocw_submit_best_paths_changes payload signature) =
    w.submit_monitored_pairs_weight (length payload.changes)
call_weight w (submit_monitored_pairs operations) =
    w.submit_monitored_pairs_weight (length operations)
call_weight w (add_whitelisted_offchain_authority account) =
    w.add_whitelisted_offchain_authority_weight
call_weight w (trade source target amount) = w.trade_weight
