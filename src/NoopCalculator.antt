-- ===== src/NoopCalculator.antt =====
-- pallets/aggregator/src/best_path_calculator/noop_calculator.rs: the calculator that takes each
-- fetched price for the best path of its pair.
pub mod Latest
use substrate_aggregator.Prelude.{List, [], ◌∷◌, map, Outcome, returns}
use substrate_aggregator.Ord.{Ord}
use substrate_aggregator.Collections.BTreeMap
use substrate_aggregator.Collections.BTreeMap.{BTreeMap}
use substrate_aggregator.Types.{Pair, ProviderPair, PricePath, CalculatorResult, ok, pair_ord}

module _ {C A : Type 0} where
  -- The pair of a price, and the path with no steps that has the price for its cost.
  abbrev pub direct : ProviderPair C × A → Pair C × PricePath C A
  direct (pp, price) = (
    record { source = pp.pair.source; target = pp.pair.target },
    record { total_cost = price; steps = [] },
  )

module _ {C V : Type 0} ⦃o : Ord C⦄ where
  -- `collect` into a map: the entries are inserted in turn.
  unfoldable pub collect : List (Pair C × V) → BTreeMap (Pair C) V → BTreeMap (Pair C) V
  collect [] collected = collected
  collect ((pair, path) ∷ entries) collected = collect entries (BTreeMap.insert pair path collected)

module _ {C A : Type 0} ⦃o : Ord C⦄ where
  unfoldable pub calc_best_paths :
      List (ProviderPair C × A) → Outcome (CalculatorResult (BTreeMap (Pair C) (PricePath C A)))
  calc_best_paths pairs_and_prices = returns (ok (collect (map direct pairs_and_prices) []))
