-- ===== src/Tests/Chains.antt =====
-- A short history of the chain: the payload is applied, and a later block begins.
use substrate_aggregator.Prelude.{List, [], ◌++◌, ℕ, ◌+◌, ◌%◌, ◌^◌, ◌≡◌, refl, arith}
use substrate_aggregator.Ord.{nat_ord}
use substrate_aggregator.Types.{pair_ord}
use substrate_aggregator.Pallet.State.{Event, ok, err, pallet_error, stale_unsigned_tx_error}
use substrate_aggregator.Pallet.Config.{runtime_config}
use substrate_aggregator.Pallet.BestPaths
use substrate_aggregator.Pallet.BestPaths.{next_nonce}
use substrate_aggregator.Pallet.Validate.{
  Call, ocw_submit_best_paths_changes, validate_unsigned, valid, tagged_at,
}
use substrate_aggregator.Pallet.Chain.{dispatch, World, Reach, here, next, unsigned, next_block}
use substrate_aggregator.Pallet.Chain.Replay.{nonce-Reach, replay-stale}
use substrate_aggregator.Pallet.Chain.Provenance.{IsAuthorised, Reach-IsAuthorised}
use substrate_aggregator.Pallet.Chain.Journal.{view_of, read_events, events-Reach}
use substrate_aggregator.Tests.Instances.{amount, origins, no_origin, crypto, start, payload}
use substrate_aggregator.Tests.Calls.{stored, accepted}

abbrev before : World ℕ ℕ ℕ
before = record { block = 11; state = start }

abbrev applied : World ℕ ℕ ℕ
applied = record { block = 11; state = stored }

abbrev later : World ℕ ℕ ℕ
later = record { block = 12; state = stored }

abbrev submission : Call ℕ ℕ ℕ ℕ ℕ
submission = ocw_submit_best_paths_changes payload 4

pool_takes :
    validate_unsigned runtime_config crypto 11 submission start
    ≡ valid (tagged_at runtime_config crypto 11)
unfolding validate_unsigned
pool_takes = refl

dispatched : dispatch origins no_origin submission start ≡ ok stored
unfolding dispatch
dispatched = accepted

applied-Reach : Reach origins runtime_config crypto before 1 applied
applied-Reach = next here (unsigned no_origin submission refl pool_takes dispatched)

later-Reach : Reach origins runtime_config crypto applied 0 later
later-Reach = next here (next_block 12 (omega arith))

nonce-Reach_example : stored.unsigned_tx_nonce ≡ (4 + 1) % 2 ^ 64
nonce-Reach_example = nonce-Reach origins runtime_config crypto applied-Reach (omega arith)

replay-stale_example :
    BestPaths.ocw_submit_best_paths_changes origins no_origin payload later.state
    ≡ err (pallet_error stale_unsigned_tx_error)
replay-stale_example =
    replay-stale origins runtime_config crypto no_origin payload before {v = applied} {u = later}
      no_origin (omega arith) accepted later-Reach (omega arith) refl

start-IsAuthorised : IsAuthorised origins runtime_config crypto start
start-IsAuthorised k path h = absurd (cc)

Reach-IsAuthorised_example : IsAuthorised origins runtime_config crypto stored
Reach-IsAuthorised_example =
    Reach-IsAuthorised origins runtime_config crypto applied-Reach start-IsAuthorised

events-Reach_example :
    (es : List (Event ℕ ℕ ℕ)) × (stored.events ≡ [] ++ es)
    × (read_events es (view_of start) ≡ view_of stored)
events-Reach_example = events-Reach origins runtime_config crypto applied-Reach
