-- ===== src/Tests/Refreshed.antt =====
-- A run of the worker with the calculator of the runtime: one price is fetched, and and one path is stored.
use substrate_aggregator.Prelude.{
  ℕ, ◌/◌, ◌^◌, ◌≡◌, refl, ◌≤◌, ◌⊎◌, arith, inl, inr, none, some, List, [], ◌∷◌, true, returns,
}
use substrate_aggregator.Ord.{nat_ord, tuple_ord}
use substrate_aggregator.Collections.BTreeMap
use substrate_aggregator.Collections.BTreeMap.{BTreeMap}
use substrate_aggregator.Storage.{write, one-IsListing}
use substrate_aggregator.Types
use substrate_aggregator.Types.{
  Pair, ProviderPair, PricePath, crypto_compare, pair_ord, provider_ord,
}
use substrate_aggregator.Pallet.Config.{runtime_config}
use substrate_aggregator.Pallet.State.{State, BestPathChangesPayload, Result}
use substrate_aggregator.Pallet.BestPaths.{ocw_submit_best_paths_changes}
use substrate_aggregator.Pallet.Offchain.{
  done, failed, best_prices_not_calculated, TradeProvider, Signer, fetch_prices,
  fetch_prices_and_update_best_paths,
}
use substrate_aggregator.Pallet.Offchain.Effect.{refreshed}
use substrate_aggregator.FloydWarshall.Calculator.Best.{BestPricePaths, GainfulPrices}
use substrate_aggregator.Runtime.{runtime_calculator}
use substrate_aggregator.Runtime.Ends.{ConvertsBack, worker-ends}
use substrate_aggregator.Pallet.Offchain.Ends.{Submits}
use native.Mathlib.Nat.{div-le_self}
use substrate_aggregator.Tests.Graphs.{
  Number, natural, power, negative, max_value, number_float, number_mul, number_costs,
  exact_naturals, naturals-IsCompared, all-Fits,
}
use substrate_aggregator.Tests.Calculator.{
  number_cast, half, exponent, Fraction, fractions-IsPriced,
}
use substrate_aggregator.Tests.Instances.{
  amount, origins, no_origin, pair_at, provided, path_of, start,
}

abbrev market : TradeProvider ℕ ℕ
market = record {
  TradeProviderErr = Unit {0};
  get_price = λ provider source target. returns (inr half);
}

abbrev signer : Signer ℕ ℕ ℕ
signer = record { any_account = some 7; submit = λ payload. true }

abbrev monitored : List (ProviderPair ℕ)
monitored = provided 3 7 ∷ []

abbrev fetched : List (ProviderPair ℕ × ℕ)
fetched = (provided 3 7, half) ∷ []

abbrev price : PricePath ℕ ℕ
price = record {
  total_cost = half;
  steps = record { pair = pair_at 3 7; provider = crypto_compare; cost = half } ∷ [];
}

-- The pair 3, 7 has a path at twice the price.
abbrev held : List (Pair ℕ × PricePath ℕ ℕ)
held = (pair_at 3 7, path_of (10 ^ 12)) ∷ []

abbrev state : State ℕ ℕ ℕ
state = record start { best_paths = write (pair_at 3 7) (some (path_of (10 ^ 12))) (λ k. none) }

submits : Submits signer
submits = record { account = 7; found = refl; taken = λ payload. refl }

prices_fetched : fetch_prices market monitored ≡ done fetched
unfolding fetch_prices
prices_fetched = refl

quotient-fits : (a : ℕ) → amount.try_into_u128 (10 ^ 12 / 2 ^ a) ≡ some (10 ^ 12 / 2 ^ a)
quotient-fits a =
    let below : 10 ^ 12 / 2 ^ a ≤ 10 ^ 12 = div-le_self (10 ^ 12) (2 ^ a) in ground arith

numbers-ConvertsBack : ConvertsBack ℕ Number
numbers-ConvertsBack (power a) = (_, _, refl, quotient-fits a)
numbers-ConvertsBack (natural a) = (_, _, refl, refl)
numbers-ConvertsBack (negative a) = (_, _, refl, refl)
numbers-ConvertsBack max_value = (_, _, refl, refl)

worker-ends_example :
    ((fetch_prices_and_update_best_paths runtime_config market
          (runtime_calculator Number)
          signer
          monitored
          held
          20
          state
        ≡ failed (best_prices_not_calculated Types.negative_cycles_error))
      × GainfulPrices {F = Number} natural exact_naturals exponent fetched)
    ⊎ ((new : BTreeMap (Pair ℕ) (PricePath ℕ ℕ)) × BestPricePaths {F = Number} natural
          exact_naturals exponent fetched new
        × (((fetch_prices_and_update_best_paths runtime_config market
                  (runtime_calculator Number)
                  signer
                  monitored
                  held
                  20
                  state
                ≡ done none)
              × ((k : Pair ℕ)
                  → state.best_paths k ≡ refreshed 1 (BTreeMap.get k new) (state.best_paths k)))
            ⊎ ((p : BestPathChangesPayload ℕ ℕ ℕ) × (fetch_prices_and_update_best_paths
                    runtime_config market
                    (runtime_calculator Number)
                    signer
                    monitored
                    held
                    20
                    state
                  ≡ done (some p))
                × ((s' : State ℕ ℕ ℕ) × (ocw_submit_best_paths_changes origins no_origin p state
                      ≡ Result.ok s')
                    × ((k : Pair ℕ)
                        → s'.best_paths k
                          ≡ refreshed 1 (BTreeMap.get k new) (state.best_paths k))))))
worker-ends_example =
    worker-ends natural exact_naturals exponent runtime_config market signer origins Fraction
      monitored (provided 3 7, half) [] held 20 state no_origin fractions-IsPriced
      naturals-IsCompared ((half, refl, inl refl), tt) (all-Fits (λ n. Unit) (λ n. tt) _ _ _)
      numbers-ConvertsBack ((10 ^ 12, refl, ground arith), tt) prices_fetched
      (one-IsListing (pair_at 3 7) (path_of (10 ^ 12))) submits refl
