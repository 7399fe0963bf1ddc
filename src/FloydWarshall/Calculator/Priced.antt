-- ===== src/FloydWarshall/Calculator/Priced.antt =====
-- pallets/aggregator/src/best_path_calculator/floyd_warshall/calculator.rs: the graph of some
-- prices, edge by edge.
use substrate_aggregator.Prelude.{
  ℕ, ◌≡◌, none, some, List, [], ◌∷◌, ◌++◌, ◌∈◌, get_elem?, returns, if◌then◌else◌,
}
use substrate_aggregator.Ord.{Ord, ◌==◌}
use substrate_aggregator.Types
use substrate_aggregator.Types.{Pair, ProviderPair, Provider, conversion_error, provider_ord}
use substrate_aggregator.Pallet.State.{Amount}
use substrate_aggregator.FloydWarshall.Float.{FloatCast}
use substrate_aggregator.FloydWarshall.Algo.{Edge}
use substrate_aggregator.FloydWarshall.Calculator.{Step, give, currencies_of, providers_of}
use substrate_aggregator.FloydWarshall.Calculator.Positions.{index_of}

-- The error of a price whose amount does not convert.
abbrev pub not_converted : {R : Type 0} → Step R
not_converted = returns (Types.err conversion_error)

pub give≢not_converted : {R : Type 0} {r : R} → give r ≡ not_converted → ⊥
give≢not_converted h = cc

-- The float of an amount, in whole units.
abbrev pub float_of : {F : Type 0} ⦃fc : FloatCast F⦄ → ℕ → F
float_of ⦃fc⦄ units = fc.div (fc.of_u128 units) fc.precision

module _ {C : Type 0} (currencies : List C) (providers : List Provider) where
  -- The numbers of an edge stand for a pair and its provider.
  pub record Names {X : Type 0} (e : Edge X) (pp : ProviderPair C) : Type 0 where
    pub source : get_elem? currencies e.pair.source ≡ some pp.pair.source
    pub target : get_elem? currencies e.pair.target ≡ some pp.pair.target
    pub provider : get_elem? providers e.provider ≡ some pp.provider

abbrev pub units_of : {A : Type 0} ⦃a : Amount A⦄ → A → ℕ
units_of ⦃a⦄ cost = elim (a.try_into_u128 cost) [ none ↦ 0 | some units ↦ units ]

module _ {C A : Type 0} ⦃o : Ord C⦄ ⦃a : Amount A⦄ where
  -- The edge of a price among the currencies and providers, with its amount for the cost.
  abbrev pub priced_edge : List C → List Provider → ProviderPair C × A → Edge ℕ
  priced_edge currencies providers (pp, cost) = record {
    pair = record {
      source = index_of pp.pair.source currencies;
      target = index_of pp.pair.target currencies;
    };
    provider = index_of pp.provider providers;
    cost = units_of cost;
  }

  -- The edges of the prices from one currency, and those from each of some currencies in turn.
  unfoldable pub outgoing : List C → List Provider → C → List (ProviderPair C × A) → List (Edge ℕ)
  outgoing currencies providers c [] = []
  outgoing currencies providers c (p ∷ prices) =
      let rest = outgoing currencies providers c prices in
      if c == p.0.pair.source then priced_edge currencies providers p ∷ rest else rest

  unfoldable pub outgoing_all :
      List C → List Provider → List C → List (ProviderPair C × A) → List (Edge ℕ)
  outgoing_all currencies providers [] prices = []
  outgoing_all currencies providers (c ∷ cs) prices =
      outgoing currencies providers c prices ++ outgoing_all currencies providers cs prices

  abbrev pub priced_graph : List (ProviderPair C × A) → List (Edge ℕ)
  priced_graph prices =
      let currencies = currencies_of prices [] in
      outgoing_all currencies (providers_of prices []) currencies prices

  abbrev pub Converts : ProviderPair C × A → Type 0
  Converts p = (units : ℕ) × (a.try_into_u128 p.1 ≡ some units)

  -- A price whose amount does not convert is among them.
  abbrev pub Fails : List (ProviderPair C × A) → Type 0
  Fails prices = (p : ProviderPair C × A) × (p ∈ prices) × (a.try_into_u128 p.1 ≡ none)
