-- ===== src/FloydWarshall/Calculator.antt =====
-- pallets/aggregator/src/best_path_calculator/floyd_warshall/calculator.rs: the calculator that numbers
-- currencies and providers, runs `longest_paths_mult` on the graph of the prices, and puts the names
-- back into the paths.
pub mod Numbers
pub mod Positions
pub mod Priced
pub mod Graph
pub mod Offered
pub mod Collected
pub mod Hops
pub mod Best
pub mod Decode
pub mod Correct
use substrate_aggregator.Prelude.{
  ℕ, ◌+◌, Option, none, some, List, [], ◌∷◌, ◌++◌, if◌then◌else◌, Outcome, returns, panics,
  get_elem?,
}
use substrate_aggregator.Ord.{Ord, ◌==◌}
use substrate_aggregator.Collections.BTreeMap
use substrate_aggregator.Collections.BTreeMap.{BTreeMap}
use substrate_aggregator.Collections.BTreeSet
use substrate_aggregator.Collections.BTreeSet.{BTreeSet}
use substrate_aggregator.Types.{
  Pair, ProviderPair, Provider, PathStep, PricePath, CalculatorError, conversion_error,
  CalculatorResult, pair_ord, provider_ord,
}
use substrate_aggregator.Types
use substrate_aggregator.Pallet.State.{Amount}
use substrate_aggregator.FloydWarshall.Float.{Float, FloatMul, FloatCast}
use substrate_aggregator.FloydWarshall.Algo.{
  VertexPair, Edge, EdgePath, PathCalculationError, negative_cycles_error, Calculation, ok, err,
  panic,
}
use substrate_aggregator.FloydWarshall.Longest.{longest_paths_mult}

-- `From<algo::PathCalculationError>`
abbrev pub from_path_error : PathCalculationError → CalculatorError
from_path_error negative_cycles_error = Types.negative_cycles_error

-- A step of the calculator: a result, or a panic.
abbrev pub Step : Type 0 → Type 0
Step R = Outcome (CalculatorResult R)

abbrev pub give : {R : Type 0} → R → Step R
give r = returns (Types.ok r)

infixl 5 ◌>>=◌
abbrev pub ◌>>=◌ : {R S : Type 0} → Step R → (R → Step S) → Step S
returns (CalculatorResult.ok r) >>= f = f r
returns (CalculatorResult.err e) >>= f = returns (Types.err e)
panics >>= f = panics

-- Indexing, and `unwrap`, panic at a value that is not there.
abbrev pub unwrap : {R : Type 0} → Option R → Step R
unwrap none = panics
unwrap (some r) = give r

abbrev pub step_of : {R : Type 0} → Calculation R → Step R
step_of (ok r) = give r
step_of (err e) = returns (Types.err (from_path_error e))
step_of panic = panics

unfoldable pub traverse : {R S : Type 0} → (R → Step S) → List R → Step (List S)
traverse f [] = give []
traverse f (r ∷ rs) = f r >>= λ s. traverse f rs >>= λ ss. give (s ∷ ss)

module _ {C A : Type 0} ⦃o : Ord C⦄ where
  unfoldable pub currencies_of : List (ProviderPair C × A) → BTreeSet C → BTreeSet C
  currencies_of [] currencies = currencies
  currencies_of ((pp, cost) ∷ prices) currencies =
      currencies_of prices
        (BTreeSet.insert pp.pair.target (BTreeSet.insert pp.pair.source currencies))

module _ {C A : Type 0} where
  unfoldable pub providers_of : List (ProviderPair C × A) → BTreeSet Provider → BTreeSet Provider
  providers_of [] providers = providers
  providers_of ((pp, cost) ∷ prices) providers =
      providers_of prices (BTreeSet.insert pp.provider providers)

-- `enumerate`, from a number on, collected into a map.
unfoldable pub numbered : {K : Type 0} ⦃o : Ord K⦄ → List K → ℕ → BTreeMap K ℕ → BTreeMap K ℕ
numbered [] n by_ind = by_ind
numbered (k ∷ ks) n by_ind = numbered ks (n + 1) (BTreeMap.insert k n by_ind)

module _ {A F : Type 0} ⦃a : Amount A⦄ ⦃fc : FloatCast F⦄ where
  -- `?` on `try_into`.
  abbrev pub cost_of : A → Step F
  cost_of cost = elim (a.try_into_u128 cost) [
    | none ↦ returns (Types.err conversion_error)
    | some units ↦ give (fc.div (fc.of_u128 units) fc.precision)
  ]

module _ {A F : Type 0} ⦃a : Amount A⦄ ⦃fm : FloatMul F⦄ ⦃fc : FloatCast F⦄ where
  -- `(cost * PRECISION) as u128`, converted back.
  abbrev pub amount_of : F → Step A
  amount_of cost = unwrap (a.try_from_u128 (fc.to_u128 (fm.mul cost fc.precision)))

module _ {C : Type 0} where
  unfoldable pub pair_of_vertices : List C → VertexPair → Step (Pair C)
  pair_of_vertices currencies pair = unwrap (get_elem? currencies pair.source) >>= λ source.
      unwrap (get_elem? currencies pair.target) >>= λ target.
      give (record { source = source; target = target })

module _ {C A F : Type 0} ⦃o : Ord C⦄ ⦃a : Amount A⦄ ⦃fc : FloatCast F⦄ where
  unfoldable pub edge_of : BTreeMap C ℕ → BTreeMap Provider ℕ → ProviderPair C × A → Step (Edge F)
  edge_of currencies_by_ind providers_by_ind (pp, cost) =
      unwrap (BTreeMap.get pp.pair.source currencies_by_ind) >>= λ source.
      unwrap (BTreeMap.get pp.pair.target currencies_by_ind) >>= λ target.
      unwrap (BTreeMap.get pp.provider providers_by_ind) >>= λ provider. cost_of cost >>= λ c.
      give (record {
        pair = record { source = source; target = target };
        provider = provider;
        cost = c;
      })

  -- The edges that leave one currency.
  unfoldable pub edges_from :
      BTreeMap C ℕ → BTreeMap Provider ℕ → C → List (ProviderPair C × A) → Step (List (Edge F))
  edges_from currencies_by_ind providers_by_ind c [] = give []
  edges_from currencies_by_ind providers_by_ind c ((pp, cost) ∷ prices) =
      let rest = edges_from currencies_by_ind providers_by_ind c prices in
      if c == pp.pair.source
      then (edge_of currencies_by_ind providers_by_ind (pp, cost) >>= λ e.
          rest >>= λ edges. give (e ∷ edges))
      else rest

  unfoldable pub graph_of :
      BTreeMap C ℕ → BTreeMap Provider ℕ → List C → List (ProviderPair C × A) → Step (List (Edge F))
  graph_of currencies_by_ind providers_by_ind [] prices = give []
  graph_of currencies_by_ind providers_by_ind (c ∷ currencies) prices =
      edges_from currencies_by_ind providers_by_ind c prices >>= λ edges.
      graph_of currencies_by_ind providers_by_ind currencies prices >>= λ others.
      give (edges ++ others)

module _ {C A F : Type 0} ⦃a : Amount A⦄ ⦃fm : FloatMul F⦄ ⦃fc : FloatCast F⦄ where
  unfoldable pub step_of_edge : List C → List Provider → Edge F → Step (PathStep C A)
  step_of_edge currencies providers e = pair_of_vertices currencies e.pair >>= λ pair.
      unwrap (get_elem? providers e.provider) >>= λ provider.
      amount_of e.cost >>= λ cost. give (record { pair = pair; provider = provider; cost = cost })

  unfoldable pub named_path :
      List C → List Provider → VertexPair × EdgePath F → Step (Pair C × PricePath C A)
  named_path currencies providers (vertices, path) =
      pair_of_vertices currencies vertices >>= λ pair. amount_of path.total_cost >>= λ total_cost.
      traverse (step_of_edge currencies providers) path.edges >>= λ steps.
      give (pair, record { total_cost = total_cost; steps = steps })

module _ {C V : Type 0} ⦃o : Ord C⦄ where
  unfoldable pub collect : List (Pair C × V) → BTreeMap (Pair C) V → BTreeMap (Pair C) V
  collect [] collected = collected
  collect ((pair, path) ∷ paths) collected = collect paths (BTreeMap.insert pair path collected)

module _ {C A : Type 0} (F : Type 0) ⦃o : Ord C⦄ ⦃a : Amount A⦄ ⦃fl : Float F⦄ ⦃fm : FloatMul F⦄
    ⦃fc : FloatCast F⦄ where
  unfoldable pub calc_best_paths :
      List (ProviderPair C × A) → Step (BTreeMap (Pair C) (PricePath C A))
  calc_best_paths pairs_and_prices =
      let currencies = currencies_of pairs_and_prices [] in
      let providers = providers_of pairs_and_prices [] in
      graph_of {F = F} (numbered currencies 0 []) (numbered providers 0 []) currencies
        pairs_and_prices
      >>= λ graph. step_of (longest_paths_mult graph) >>= λ paths.
          traverse (named_path currencies providers) paths >>= λ named. give (collect named [])
