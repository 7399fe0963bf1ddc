-- ===== src/Tests/Worker.antt =====
-- A run of the off-chain worker: the pair 1, 2 has a path of cost 50, and prices are fetched for that
-- pair and for the pair 3, 4.
use mathlib.Core.Option
use mathlib.Core.Option.{some-injective}
use substrate_aggregator.Prelude.{
  ℕ, ◌+◌, ◌*◌, ◌≤◌, ◌≡◌, refl, subst, ◌↔◌, inl, inr, true, false, Bool, Option, none, some, List,
  [], ◌∷◌, arith, ◌∈◌, if◌then◌else◌, returns,
}
use substrate_aggregator.Ord.{nat_ord, ◌==◌}
use substrate_aggregator.Collections.BTreeMap
use substrate_aggregator.Collections.BTreeMap.{BTreeMap}
use substrate_aggregator.Collections.BTreeMap.Entries.{Ascends}
use substrate_aggregator.Storage.{Storage, IsListing, one-IsListing, write}
use substrate_aggregator.Types.{Pair, ProviderPair, PricePath, ok, pair_ord}
use substrate_aggregator.Utils.{breaches_tolerance}
use substrate_aggregator.Pallet.Config.{runtime_config}
use substrate_aggregator.Pallet.State.{State, Change, BestPathChangesPayload, Result}
use substrate_aggregator.Pallet.BestPaths.{ocw_submit_best_paths_changes}
use substrate_aggregator.NoopCalculator
use substrate_aggregator.NoopCalculator.{collect}
use substrate_aggregator.NoopCalculator.Latest.{latest_price, with_no_steps, calc_best_paths-latest}
use substrate_aggregator.Pallet.Offchain.{
  Run, done, TradeProvider, BestPathCalculator, Signer, unset, at_block, change_to, fetch_prices,
  path_breaches, changed_path, changed_paths, added_paths, select_changes, send_changes,
  update_best_paths, fetch_prices_and_update_best_paths, should_trigger_offchain, offchain_worker,
}
use substrate_aggregator.Pallet.Offchain.Loops.{Comparable, AllComparable}
use substrate_aggregator.Pallet.Offchain.Changes.{IsSelected, select_changes-selects}
use substrate_aggregator.Pallet.Offchain.Effect.{refreshed, fetch_prices-refreshes}
use substrate_aggregator.Pallet.Offchain.Trigger.{
  Spaced, submitted_at, submitted_at-Spaced, should_trigger_offchain-after_iff,
}
use substrate_aggregator.Pallet.Offchain.Fetched.{IsFetched, fetch_prices-IsFetched}
use substrate_aggregator.Pallet.Offchain.Steady.{steady, submitted_at-every}
use substrate_aggregator.Tests.Instances.{
  amount, origins, no_origin, pair_at, provided, path_of, start,
}

abbrev held : Storage (Pair ℕ) (PricePath ℕ ℕ)
held = write (pair_at 1 2) (some (path_of 50)) (λ k. none)

abbrev held_entries : List (Pair ℕ × PricePath ℕ ℕ)
held_entries = (pair_at 1 2, path_of 50) ∷ []

held-IsListing : IsListing held_entries held
held-IsListing = one-IsListing (pair_at 1 2) (path_of 50)

abbrev new : BTreeMap (Pair ℕ) (PricePath ℕ ℕ)
new = (pair_at 1 2, path_of 60) ∷ (pair_at 3 4, path_of 8) ∷ []

new-Ascends : Ascends new
new-Ascends = ground arith

all-AllComparable : AllComparable 1 new held_entries
unfolding BTreeMap.get
all-AllComparable = (
  λ path h.
      subst (Comparable (path_of 50)) (some-injective _ _ h) (50, 60, refl, refl, omega arith),
  tt,
)

select_changes-selects_example :
    (changes : List (Change ℕ ℕ)) × (select_changes 1 held held_entries new ≡ done changes)
    × ((c : Change ℕ ℕ)
        → (c ∈ changes) ↔ (
            (pair : Pair ℕ) × (path : PricePath ℕ ℕ) × IsSelected 1 held new pair path
            × (c ≡ change_to pair path)))
select_changes-selects_example =
    select_changes-selects 1 held new held_entries held-IsListing new-Ascends all-AllComparable

abbrev market : TradeProvider ℕ ℕ
market = record {
  TradeProviderErr = Unit {0};
  get_price = λ provider source target.
      returns (if source == 1 then inr 60 else (if source == 3 then inr 8 else inl tt));
}

abbrev calculator : BestPathCalculator ℕ ℕ
calculator = record { calc_best_paths = NoopCalculator.calc_best_paths }

abbrev signer : Signer ℕ ℕ ℕ
signer = record { any_account = some 7; submit = λ payload. true }

-- The price of the pair 5, 6 cannot be fetched.
abbrev monitored : List (ProviderPair ℕ)
monitored = provided 1 2 ∷ provided 5 6 ∷ provided 3 4 ∷ []

abbrev fetched : List (ProviderPair ℕ × ℕ)
fetched = (provided 1 2, 60) ∷ (provided 3 4, 8) ∷ []

prices_fetched : fetch_prices market monitored ≡ done fetched
unfolding fetch_prices
prices_fetched = refl

fetch_prices-IsFetched_example :
    (prices : List (ProviderPair ℕ × ℕ)) × (fetch_prices market monitored ≡ done prices)
    × IsFetched market monitored prices
fetch_prices-IsFetched_example = fetch_prices-IsFetched market monitored (λ pp m. (_, refl))

paths_calculated : NoopCalculator.calc_best_paths fetched ≡ returns (ok new)
unfolding NoopCalculator.calc_best_paths collect BTreeMap.insert
paths_calculated = refl

abbrev state : State ℕ ℕ ℕ
state = record start { best_paths = held }

abbrev sent : BestPathChangesPayload ℕ ℕ ℕ
sent = record {
  changes = change_to (pair_at 1 2) (path_of 60) ∷ change_to (pair_at 3 4) (path_of 8) ∷ [];
  nonce = 4;
  block_number = 20;
  public = 7;
}

payload_sent :
    fetch_prices_and_update_best_paths runtime_config market calculator signer monitored
      held_entries 20 state
    ≡ done (some sent)
unfolding fetch_prices_and_update_best_paths update_best_paths fetch_prices
    NoopCalculator.calc_best_paths collect BTreeMap.insert BTreeMap.get select_changes changed_paths
    changed_path path_breaches breaches_tolerance added_paths write send_changes
payload_sent = refl

fetch_prices-refreshes_example :
    (s' : State ℕ ℕ ℕ) × (ocw_submit_best_paths_changes origins no_origin sent state ≡ Result.ok s')
    × ((k : Pair ℕ) → s'.best_paths k ≡ refreshed 1 (BTreeMap.get k new) (held k))
fetch_prices-refreshes_example =
    fetch_prices-refreshes runtime_config market calculator signer origins monitored fetched
      held_entries 20 state sent new no_origin prices_fetched paths_calculated payload_sent
      new-Ascends held-IsListing refl

-- Two submissions and a run that is too early, one that finds the lock taken, and one that fails.
abbrev runs : List (ℕ × Bool × Run (Option ℕ))
runs =
    (20, true, done (some 1))
    ∷ (21, true, done (some 2))
    ∷ (23, false, done (some 3))
    ∷ (24, true, done (some 4))
    ∷ []

submissions : submitted_at runtime_config runs unset ≡ 20 ∷ 24 ∷ []
unfolding submitted_at offchain_worker should_trigger_offchain
submissions = refl

submitted_at-Spaced_example : Spaced runtime_config (submitted_at runtime_config runs unset)
submitted_at-Spaced_example = submitted_at-Spaced runtime_config runs unset (ground arith)

triggered : should_trigger_offchain 20 (at_block 20) ≡ true
unfolding should_trigger_offchain
triggered = refl

should_trigger_offchain-after_iff_example :
    (should_trigger_offchain 22
        (offchain_worker {P = ℕ} runtime_config 20 true (done (some 1)) (at_block 20)).1
      ≡ true)
    ↔ (20 + 3 ≤ 22)
should_trigger_offchain-after_iff_example =
    should_trigger_offchain-after_iff runtime_config 20 22 (done (some 1)) (at_block 20)
      (ground arith) triggered (λ h. absurd (cc))

calc_best_paths-latest_example :
    (m : BTreeMap (Pair ℕ) (PricePath ℕ ℕ)) × (NoopCalculator.calc_best_paths fetched
      ≡ returns (ok m))
    × ((k : Pair ℕ) → BTreeMap.get k m ≡ Option.map with_no_steps (latest_price k fetched))
calc_best_paths-latest_example = calc_best_paths-latest fetched

first_triggered : should_trigger_offchain 20 unset ≡ true
unfolding should_trigger_offchain
first_triggered = refl

submitted_at-every_example :
    submitted_at runtime_config (steady (λ b. b) 20 (2 * 3)) unset ≡ 20 ∷ 23 ∷ []
submitted_at-every_example =
    submitted_at-every (λ b. b) runtime_config 2 20 unset first_triggered (ground arith)
      (ground arith)
