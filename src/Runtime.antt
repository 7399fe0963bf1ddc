-- ===== src/Runtime.antt =====
-- runtime/src/lib.rs: how the runtime fills the parameters of the pallet: the calculator is that of
-- Floyd-Warshall, and prices come from the trade provider, for currencies that are texts and amounts
-- that are `u128`.
pub mod Ends
pub mod Transaction
use substrate_aggregator.Prelude.{
  ℕ, ◌*◌, ◌%◌, ◌^◌, List, ◌⊎◌, inl, inr, Option, none, some, if◌then◌else◌, ltb, Outcome, returns,
  panics,
}
use substrate_aggregator.Ord.{Ord}
use substrate_aggregator.Pallet.State.{Amount}
use substrate_aggregator.Pallet.Offchain.{TradeProvider, BestPathCalculator}
use substrate_aggregator.FloydWarshall.Float.{Float, FloatMul, FloatCast}
use substrate_aggregator.FloydWarshall.Calculator.{calc_best_paths}
use substrate_aggregator.TradeProvider.{Host, PriceResult, TradeProviderErr, provider_price}
use substrate_aggregator.Utils.{LiteJson}

-- `type Amount = u128`
abbrev pub runtime_amount : Amount ℕ
runtime_amount = record {
  default = 0;
  mul = λ a b. a * b % 2 ^ 128;
  try_into_u128 = λ a. some a;
  try_from_u128 = λ n. some n;
}

abbrev pub price_or_failure :
    {host : Host} → Outcome (PriceResult host) → Outcome (TradeProviderErr host ⊎ ℕ)
price_or_failure panics = panics
price_or_failure (returns (PriceResult.ok price)) = returns (inr price)
price_or_failure (returns (PriceResult.err e)) = returns (inl e)

-- `type TradeProvider = TradeProviderImpl`
abbrev pub runtime_market : Host → LiteJson → TradeProvider (List ℕ) ℕ
runtime_market host json = record {
  TradeProviderErr = TradeProviderErr host;
  get_price =
      λ provider source target. price_or_failure (provider_price host json provider source target);
}

-- `type BestPathCalculator = FloydWarshallCalculator`
abbrev pub runtime_calculator :
    {C A : Type 0} (F : Type 0) ⦃o : Ord C⦄ ⦃a : Amount A⦄ ⦃fl : Float F⦄ ⦃fm : FloatMul F⦄
    ⦃fc : FloatCast F⦄
    → BestPathCalculator C A
runtime_calculator F = record { calc_best_paths = calc_best_paths F }
