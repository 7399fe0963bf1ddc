-- ===== src/Pallet/Offchain.antt =====
-- pallets/aggregator/src/lib.rs: the off-chain worker, from `offchain_worker` to the payload that
-- `fetch_prices_and_update_best_paths` signs and submits.
pub mod Loops
pub mod Added
pub mod Changes
pub mod Sent
pub mod Effect
pub mod Trigger
pub mod Steady
pub mod Fetched
pub mod Ends
use substrate_aggregator.Prelude.{
  ℕ, Option, none, some, Bool, true, false, List, [], ◌∷◌, ◌++◌, ◌⊎◌, inl, inr, if◌then◌else◌, leb,
  Outcome, returns, panics, ◌≡◌,
}
use substrate_aggregator.Ord.{Ord}
use substrate_aggregator.Collections.BTreeMap
use substrate_aggregator.Collections.BTreeMap.{BTreeMap}
use substrate_aggregator.Storage.{Storage}
use substrate_aggregator.Types.{
  Pair, ProviderPair, Provider, PricePath, CalculatorError, CalculatorResult, ok, err, pair_ord,
}
use substrate_aggregator.Utils.{breaches_tolerance}
use substrate_aggregator.Pallet.Config.{Config, add_blocks}
use substrate_aggregator.Pallet.State.{Amount, Change, BestPathChangesPayload, State}

-- The trait `TradeProvider`: a price, or a failure.
pub record TradeProvider (C A : Type 0) : Type 1 where
  pub TradeProviderErr : Type 0
  pub get_price : Provider → C → C → Outcome (TradeProviderErr ⊎ A)

-- The trait `BestPathCalculator`.
pub record BestPathCalculator (C A : Type 0) : Type 0 where
  pub calc_best_paths :
      List (ProviderPair C × A) → Outcome (CalculatorResult (BTreeMap (Pair C) (PricePath C A)))

-- The signer that the runtime offers to off-chain workers: the account that `any_account` finds to
-- sign with, if there is one, and whether the pool takes the transaction with the payload.
pub record Signer (Public C A : Type 0) : Type 0 where
  pub any_account : Option Public
  pub submit : BestPathChangesPayload Public C A → Bool

pub data WorkerError : Type 0 where
  best_prices_not_calculated : CalculatorError → WorkerError
  old_total_cost_not_converted : WorkerError
  new_total_cost_not_converted : WorkerError
  no_local_accounts : WorkerError
  unable_to_submit : WorkerError

-- A step of the worker: a value, an error that ends the run, or a panic.
pub data Run {ℓ} (R : Type ℓ) : Type ℓ where
  done : R → Run R
  failed : WorkerError → Run R
  panicked : Run R

infixl 5 ◌>>=◌
abbrev pub ◌>>=◌ {ℓ κ} : {R : Type ℓ} {S : Type κ} → Run R → (R → Run S) → Run S
done r >>= f = f r
failed e >>= f = failed e
panicked >>= f = panicked

abbrev pub run_of : {R : Type 0} → Outcome R → Run R
run_of (returns r) = done r
run_of panics = panicked

-- What `?` makes of `try_into`.
abbrev pub converted : WorkerError → Option ℕ → Run ℕ
converted e none = failed e
converted e (some cost) = done cost

abbrev pub calculated : {R : Type 0} → CalculatorResult R → Run R
calculated (ok paths) = done paths
calculated (err e) = failed (best_prices_not_calculated e)

module _ {C A : Type 0} (market : TradeProvider C A) where
  -- The prices of the monitored pairs, without those that could not be fetched.
  unfoldable pub fetch_prices : List (ProviderPair C) → Run (List (ProviderPair C × A))
  fetch_prices [] = done []
  fetch_prices (pp ∷ pairs) =
      run_of (market.get_price pp.provider pp.pair.source pp.pair.target) >>= λ price.
      fetch_prices pairs >>= λ fetched. elim price [
        | inl _ ↦ done fetched
        | inr cost ↦ done ((pp, cost) ∷ fetched)
      ]

module _ {C A : Type 0} where
  abbrev pub change_to : Pair C → PricePath C A → Change C A
  change_to pair path = (pair.source, pair.target, some path)

module _ {C A : Type 0} ⦃a : Amount A⦄ where
  -- Whether a stored path differs from the new one by more than the tolerance.
  unfoldable pub path_breaches : (tolerance : ℕ) (old new : PricePath C A) → Run Bool
  path_breaches tolerance old new =
      converted old_total_cost_not_converted (a.try_into_u128 old.total_cost) >>= λ old_total_cost.
      converted new_total_cost_not_converted (a.try_into_u128 new.total_cost) >>= λ new_total_cost.
      run_of (breaches_tolerance old_total_cost new_total_cost tolerance)

  -- The round of the first loop for one stored path.
  unfoldable pub changed_path :
      (tolerance : ℕ)
      → Pair C
      → (old : PricePath C A) (new : Option (PricePath C A)) → Run (List (Change C A))
  changed_path tolerance pair old none = done []
  changed_path tolerance pair old (some new) = path_breaches tolerance old new >>= λ breach.
      done (if breach then change_to pair new ∷ [] else [])

module _ {C A : Type 0} ⦃a : Amount A⦄ ⦃o : Ord C⦄ where
  -- The first loop, over the stored paths.
  unfoldable pub changed_paths :
      (tolerance : ℕ)
      → BTreeMap (Pair C) (PricePath C A)
      → List (Pair C × PricePath C A)
      → Run (List (Change C A))
  changed_paths tolerance new_best_paths [] = done []
  changed_paths tolerance new_best_paths ((pair, old) ∷ stored) =
      changed_path tolerance pair old (BTreeMap.get pair new_best_paths) >>= λ first.
      changed_paths tolerance new_best_paths stored >>= λ others. done (first ++ others)

module _ {C A : Type 0} where
  -- The second loop, over the new paths.
  unfoldable pub added_paths :
      Storage (Pair C) (PricePath C A) → List (Pair C × PricePath C A) → List (Change C A)
  added_paths best_paths [] = []
  added_paths best_paths ((pair, new) ∷ new_best_paths) =
      let others = added_paths best_paths new_best_paths in
      elim (best_paths pair) [ none ↦ change_to pair new ∷ others | some _ ↦ others ]

module _ {C A : Type 0} ⦃a : Amount A⦄ ⦃o : Ord C⦄ where
  -- The changes that both loops select. `stored` is what `BestPaths::iter` runs over.
  unfoldable pub select_changes :
      (tolerance : ℕ)
      → Storage (Pair C) (PricePath C A)
      → (stored : List (Pair C × PricePath C A)) → BTreeMap (Pair C) (PricePath C A)
      → Run (List (Change C A))
  select_changes tolerance best_paths stored new_best_paths =
      changed_paths tolerance new_best_paths stored >>= λ changed.
      done (changed ++ added_paths best_paths new_best_paths)

  module _ {Public : Type 0} where
    abbrev pub send :
        Signer Public C A
        → BestPathChangesPayload Public C A
        → Run (Option (BestPathChangesPayload Public C A))
    send signer payload =
        if signer.submit payload then done (some payload) else failed unable_to_submit

    -- The payload is sent only if there are changes.
    unfoldable pub send_changes :
        Signer Public C A
        → (nonce block_number : ℕ) → List (Change C A)
        → Run (Option (BestPathChangesPayload Public C A))
    send_changes signer nonce block_number [] = done none
    send_changes signer nonce block_number (c ∷ changes) = elim signer.any_account [
      | none ↦ failed no_local_accounts
      | some public ↦ send signer (record {
        changes = c ∷ changes;
        nonce = nonce;
        block_number = block_number;
        public = public;
      })
    ]

    module _ {Account : Type 0} (c : Config) (market : TradeProvider C A)
        (calculator : BestPathCalculator C A) (signer : Signer Public C A) where
      -- The worker from the fetched prices on.
      unfoldable pub update_best_paths :
          List (ProviderPair C × A)
          → List (Pair C × PricePath C A)
          → (block_number : ℕ) → State Account C A
          → Run (Option (BestPathChangesPayload Public C A))
      update_best_paths [] stored block_number s = done none
      update_best_paths (p ∷ fetched) stored block_number s =
          run_of (calculator.calc_best_paths (p ∷ fetched)) >>= λ result.
          calculated result >>= λ new_best_paths.
          select_changes c.price_change_tolerance s.best_paths stored new_best_paths
          >>= send_changes signer s.unsigned_tx_nonce block_number

      -- `monitored` and `stored` are what `MonitoredPairs::iter_keys` and `BestPaths::iter` run
      -- over. The result is the payload submitted, if any.
      unfoldable pub fetch_prices_and_update_best_paths :
          (monitored : List (ProviderPair C)) (stored : List (Pair C × PricePath C A))
          (block_number : ℕ)
          → State Account C A
          → Run (Option (BestPathChangesPayload Public C A))
      fetch_prices_and_update_best_paths monitored stored block_number s =
          fetch_prices market monitored >>= λ fetched.
          update_best_paths fetched stored block_number s

-- The worker's local storage at `NEXT_OFFCHAIN_TRIGGER_BLOCK`: nothing, a block, or bytes that are
-- no block number.
pub data NextTrigger : Type 0 where
  unset : NextTrigger
  at_block : ℕ → NextTrigger
  unreadable : NextTrigger

unfoldable pub should_trigger_offchain : (block_number : ℕ) → NextTrigger → Bool
should_trigger_offchain block_number unset = true
should_trigger_offchain block_number (at_block next_trigger) = leb next_trigger block_number
should_trigger_offchain block_number unreadable = false

-- A run under the lock, if that is free, and the trigger that it leaves: the bumped one once the run
-- has ended, with an error or not. A panic ends the worker before the trigger is bumped.
abbrev pub with_lock :
    {P : Type 0}
    → (lock_is_free : Bool) → Run (Option P)
    → (bumped trigger : NextTrigger) → Option P × NextTrigger
with_lock false run bumped trigger = (none, trigger)
with_lock true (done submitted) bumped trigger = (submitted, bumped)
with_lock true (failed e) bumped trigger = (none, bumped)
with_lock true panicked bumped trigger = (none, trigger)

-- The worker at a block, given the run of `fetch_prices_and_update_best_paths`: what it submits, and
-- what it leaves in its local storage.
unfoldable pub offchain_worker :
    {P : Type 0}
    → Config
    → (block_number : ℕ) (lock_is_free : Bool) → Run (Option P)
    → NextTrigger
    → Option P × NextTrigger
offchain_worker c block_number lock_is_free run trigger =
    let next_trigger = add_blocks c block_number c.offchain_trigger_delay in
    if should_trigger_offchain block_number trigger
    then with_lock lock_is_free run (at_block next_trigger) trigger
    else (none, trigger)
