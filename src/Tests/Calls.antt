-- ===== src/Tests/Calls.antt =====
-- The calls of the pallet on a small state.
use substrate_aggregator.Prelude.{ℕ, ◌≡◌, ◌≢◌, refl, ◌↔◌, ◌⊎◌, none, some, List, [], ◌∷◌, arith}
use substrate_aggregator.Ord.{nat_ord}
use substrate_aggregator.Types.{
  ProviderPairOperation, add, del, PricePath, pair_ord, provider_pair_ord,
}
use substrate_aggregator.Pallet.State.{
  State, ok, PriceEntry, PairEntry, best_prices_submitted, monitored_pairs_submitted,
  trade_performed, deposit_event,
}
use substrate_aggregator.Pallet.Config.{runtime_config}
use substrate_aggregator.Pallet.BestPaths.{
  apply_changes, submitted, next_nonce, ocw_submit_best_paths_changes,
}
use substrate_aggregator.Pallet.BestPaths.Latest.{best_paths-latest, best_paths-untouched}
use substrate_aggregator.Pallet.BestPaths.Journal.{follow, costs, prices_event-follows}
use substrate_aggregator.Pallet.MonitoredPairs.{
  dedupe, apply_operations, noted, submit_monitored_pairs,
}
use substrate_aggregator.Pallet.MonitoredPairs.Latest.{outcome, monitored_pairs-outcome}
use substrate_aggregator.Pallet.MonitoredPairs.Journal
use substrate_aggregator.Pallet.MonitoredPairs.Journal.{Flips, pairs_event-follows}
use substrate_aggregator.Pallet.Trade.{trade, trade_iff}
use substrate_aggregator.Pallet.Validate
use substrate_aggregator.Pallet.Validate.{
  validate_unsigned, valid, tagged_at, IsTrusted, validate_unsigned_iff,
}
use substrate_aggregator.Tests.Instances.{
  amount, no_origin, root, signed, origins, crypto, pair_at, provided, path_of, start, payload,
}

abbrev pub stored : State ℕ ℕ ℕ
stored = submitted (apply_changes payload.changes start.best_paths []) start

pub accepted : ocw_submit_best_paths_changes origins no_origin payload start ≡ ok stored
unfolding ocw_submit_best_paths_changes
accepted = refl

-- The pair 1, 2 gets its path; the removal that follows is of another pair.
best_paths-latest_example : stored.best_paths (pair_at 1 2) ≡ some (path_of 50)
best_paths-latest_example =
    best_paths-latest origins no_origin payload start (1, 2, some (path_of 50)) []
      ((3, 4, none) ∷ []) accepted refl (ground arith)

best_paths-untouched_example :
    (stored.best_paths (pair_at 5 6) ≡ none)
    × (stored.monitored_pairs ≡ start.monitored_pairs)
    × (stored.whitelisted_offchain_authorities ≡ start.whitelisted_offchain_authorities)
    × (stored.unsigned_tx_nonce ≡ next_nonce 4)
best_paths-untouched_example =
    best_paths-untouched origins no_origin payload start (pair_at 5 6) accepted (ground arith)

prices_event-follows_example :
    ((stored.events ≡ []) × (stored.best_paths ≡ start.best_paths))
    ⊎ ((es : List (PriceEntry ℕ ℕ)) × (es ≢ [])
        × (stored.events ≡ best_prices_submitted es ∷ [])
        × (follow es (costs start.best_paths) ≡ costs stored.best_paths))
prices_event-follows_example = prices_event-follows origins no_origin payload start accepted

-- The pair 1, 2 is added, deleted and added again; the pair 3, 4 is not there to be deleted.
abbrev operations : List (ProviderPairOperation ℕ)
operations =
    record { provider_pair = provided 1 2; operation = add }
    ∷ record { provider_pair = provided 1 2; operation = del }
    ∷ record { provider_pair = provided 3 4; operation = del }
    ∷ record { provider_pair = provided 1 2; operation = add }
    ∷ []

abbrev pub watched : State ℕ ℕ ℕ
watched = noted (apply_operations (dedupe operations) start.monitored_pairs []) start

submitted_operations : submit_monitored_pairs origins root operations start ≡ ok watched
unfolding submit_monitored_pairs
submitted_operations = refl

monitored_pairs-outcome_example :
    watched.monitored_pairs (provided 1 2) ≡ outcome operations (provided 1 2) none
monitored_pairs-outcome_example =
    monitored_pairs-outcome origins root operations start (provided 1 2) submitted_operations

pairs_event-follows_example :
    ((watched.events ≡ []) × (watched.monitored_pairs ≡ start.monitored_pairs))
    ⊎ ((es : List (PairEntry ℕ)) × (es ≢ [])
        × (watched.events ≡ monitored_pairs_submitted es ∷ [])
        × Journal.Distinct es
        × Flips es start.monitored_pairs
        × (Journal.follow es start.monitored_pairs ≡ watched.monitored_pairs))
pairs_event-follows_example = pairs_event-follows origins root operations start submitted_operations

trade_iff_example :
    (trade origins (signed 9) 1 2 20 stored
      ≡ ok (deposit_event (trade_performed 9 1 2 50 20 1_000) stored))
    ↔ ((owner : ℕ) × (path : PricePath ℕ ℕ) × (some 9 ≡ some owner)
        × (stored.best_paths (pair_at 1 2) ≡ some path)
        × (deposit_event (trade_performed 9 1 2 50 20 1_000) stored
            ≡ deposit_event
                (trade_performed owner 1 2 path.total_cost 20 (amount.mul 20 path.total_cost))
                stored))
trade_iff_example =
    trade_iff origins (signed 9) 1 2 20 stored
      (deposit_event (trade_performed 9 1 2 50 20 1_000) stored)

validate_unsigned_iff_example :
    (validate_unsigned runtime_config crypto 13
        (Validate.ocw_submit_best_paths_changes payload 4)
        start
      ≡ valid (tagged_at runtime_config crypto 13))
    ↔ ((tagged_at runtime_config crypto 13 ≡ tagged_at runtime_config crypto 13)
        × IsTrusted runtime_config crypto 13 start
            (Validate.ocw_submit_best_paths_changes payload 4))
validate_unsigned_iff_example =
    validate_unsigned_iff runtime_config crypto 13
      (Validate.ocw_submit_best_paths_changes payload 4) start (tagged_at runtime_config crypto 13)

taken :
    validate_unsigned runtime_config crypto 13
      (Validate.ocw_submit_best_paths_changes payload 4)
      start
    ≡ valid (tagged_at runtime_config crypto 13)
unfolding validate_unsigned
taken = refl
