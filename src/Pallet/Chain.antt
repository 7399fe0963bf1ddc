-- ===== src/Pallet/Chain.antt =====
-- pallets/aggregator/src/lib.rs: the pallet on the chain. The calls are dispatched by their origin;
-- an unsigned one is dispatched only if `validate_unsigned` takes it at the current block, which is
-- how the runtime applies an unsigned extrinsic.
pub mod Frame
pub mod Provenance
pub mod Replay
pub mod Journal
use substrate_aggregator.Prelude.{ℕ, suc, ◌+◌, ◌≤◌, ◌≡◌, true, false, List}
use substrate_aggregator.Ord.{Ord}
use substrate_aggregator.Pallet.State.{Amount, Origins, Result, ok, State}
use substrate_aggregator.Pallet.Config.{Config}
use substrate_aggregator.Pallet.BestPaths
use substrate_aggregator.Pallet.MonitoredPairs
use substrate_aggregator.Pallet.Trade
use substrate_aggregator.Pallet.Validate.{
  Call, ocw_submit_best_paths_changes, submit_monitored_pairs, add_whitelisted_offchain_authority,
  trade, Crypto, ValidTransaction, valid, validate_unsigned,
}

module _ {Account Public Signature C A : Type 0} ⦃a : Amount A⦄ ⦃o : Ord C⦄ ⦃k : Ord Account⦄
    (f : Origins Account) where
  unfoldable pub dispatch :
      f.Origin → Call Account Public Signature C A → State Account C A → Result (State Account C A)
  dispatch origin (ocw_submit_best_paths_changes payload signature) s =
      BestPaths.ocw_submit_best_paths_changes f origin payload s
  dispatch origin (submit_monitored_pairs operations) s =
      MonitoredPairs.submit_monitored_pairs f origin operations s
  dispatch origin (add_whitelisted_offchain_authority account) s =
      Trade.add_whitelisted_offchain_authority f origin account s
  dispatch origin (trade source target amount) s = Trade.trade f origin source target amount s

pub record World (Account C A : Type 0) : Type 0 where
  pub block : ℕ
  pub state : State Account C A

module _ {Account Public Signature C A : Type 0} ⦃a : Amount A⦄ ⦃o : Ord C⦄ ⦃k : Ord Account⦄
    (f : Origins Account) (config : Config) (crypto : Crypto Account Public Signature C A) where
  -- One step of the chain, with the number of unsigned calls that it applies. A call that fails
  -- leaves the state as it was and is no step.
  pub data Step : World Account C A → ℕ → World Account C A → Type 0 where
    extrinsic :
        {w : World Account C A} {s : State Account C A} (origin : f.Origin)
        (c : Call Account Public Signature C A)
        → f.ensure_none origin ≡ false
        → dispatch f origin c w.state ≡ ok s
        → Step w 0 (record w { state = s })
    unsigned :
        {w : World Account C A} {s : State Account C A} {v : ValidTransaction} (origin : f.Origin)
        (c : Call Account Public Signature C A)
        → f.ensure_none origin ≡ true
        → validate_unsigned config crypto w.block c w.state ≡ valid v
        → dispatch f origin c w.state ≡ ok s
        → Step w 1 (record w { state = s })
    next_block :
        {w : World Account C A} (block : ℕ)
        → w.block ≤ block
        → Step w 0 (record w { block = block })

  -- The worlds that can be reached, with the number of unsigned calls applied on the way.
  pub data Reach (w : World Account C A) : ℕ → World Account C A → Type 0 where
    here : Reach w 0 w
    next : {n m : ℕ} {v u : World Account C A} → Reach w n v → Step v m u → Reach w (m + n) u
