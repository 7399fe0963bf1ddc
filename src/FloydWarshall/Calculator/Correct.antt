-- ===== src/FloydWarshall/Calculator/Correct.antt =====
-- pallets/aggregator/src/best_path_calculator/floyd_warshall/calculator.rs: what `calc_best_paths`
-- computes.
use Prim.Native.Nat.Ordering.{lt}
use substrate_aggregator.Prelude.{
  [], ℕ, ◌≡◌, refl, sym, ◌∙◌, subst, ◌⊎◌, inl, inr, none≢some, some, none, List, [], ◌∈◌, map, All,
  All-mem, All_of_mem, returns,
}
use substrate_aggregator.Ord.{Ord, nat_ord, tuple_ord}
use substrate_aggregator.Collections.BTreeMap.{BTreeMap}
use substrate_aggregator.Types
use substrate_aggregator.Types.{Pair, ProviderPair, Provider, PricePath, pair_ord, provider_ord}
use substrate_aggregator.Pallet.State.{Amount}
use substrate_aggregator.FloydWarshall.Float.{Float, FloatMul, FloatCast}
use substrate_aggregator.FloydWarshall.MinPlus.{Costs}
use substrate_aggregator.FloydWarshall.Algo.Walk.{IsExact, embed_edge}
use substrate_aggregator.FloydWarshall.Algo.Unique.{IsCompared}
use substrate_aggregator.FloydWarshall.Algo.Picks.{chosen}
use substrate_aggregator.FloydWarshall.Algo.Shortest.{SumsFit}
use substrate_aggregator.FloydWarshall.Longest.{longest_paths_mult}
use substrate_aggregator.FloydWarshall.Longest.Routes.{IsPriced}
use substrate_aggregator.FloydWarshall.Longest.Keys.{longest_paths_mult-Keys}
use substrate_aggregator.FloydWarshall.Longest.Best.{longest_paths_mult-cases}
use substrate_aggregator.FloydWarshall.Calculator.{
  providers_of, numbered, named_path, step_of, traverse, graph_of, give, amount_of, currencies_of,
  calc_best_paths,
}
use substrate_aggregator.FloydWarshall.Calculator.Numbers.{currencies_of-mem}
use substrate_aggregator.FloydWarshall.Calculator.Offered.{priced_graph-mem}
use substrate_aggregator.FloydWarshall.Calculator.Graph.{graph_of-cases, graph_of-fails}
use substrate_aggregator.FloydWarshall.Calculator.Priced.{float_of, units_of, priced_graph}
use substrate_aggregator.FloydWarshall.Calculator.Best.{
  kept_edges, BestPricePaths, GainfulPrices, IsNamed, priced_graph-Ends, gainful,
}
use substrate_aggregator.FloydWarshall.Calculator.Collected.{
  give_of_bind, give-injective, collect-Ascends,
}
use substrate_aggregator.Collections.BTreeMap.Entries.{Ascends}
use substrate_aggregator.FloydWarshall.Calculator.Decode.{named_matrix}

module _ {C A F G : Type 0} ⦃oc : Ord C⦄ ⦃a : Amount A⦄ ⦃fl : Float F⦄ ⦃fm : FloatMul F⦄
    ⦃fc : FloatCast F⦄ ⦃g : Costs G⦄ ⦃o : Ord G⦄ (embed : G → F) (exact : IsExact embed)
    (weigh : ℕ → G) where
  -- Let the prices convert into a range whose floats compare as they are and have exact costs for
  -- the negated logarithms that they compute, let the sums of these that the loops compare be
  -- exact, and let every float convert back into an amount. Then the calculation never panics. With
  -- one cheapest price kept for each pair of currencies, it returns a map in which each path is a
  -- chain of kept prices between the currencies of its pair, step by step, with their product for
  -- its cost. Each pair that has a price, and each that kept prices link, has a path; no linked
  -- kept prices have a smaller sum of the computed negated logarithms than it, and none that lead
  -- back to their start have a negative one. Or it reports a negative cycle, and kept prices that
  -- lead back to their start have a negative sum.
  pub calc_best_paths-cases :
      (Range : ℕ → Type 0) (prices : List (ProviderPair C × A))
      → IsPriced embed exact float_of weigh Range
      → IsCompared exact.Exact embed
      → All (λ p. (units : ℕ) × (a.try_into_u128 p.1 ≡ some units) × Range units) prices
      → SumsFit embed exact (chosen lt (map (embed_edge weigh) (kept_edges prices)))
      → ((x : F) → (amount : A) × (amount_of x ≡ give amount))
      → ((m : BTreeMap (Pair C) (PricePath C A)) × (calc_best_paths F prices ≡ give m)
          × BestPricePaths {F = F} embed exact weigh prices m)
        ⊎ ((calc_best_paths {A = A} F prices ≡ returns (Types.err Types.negative_cycles_error))
            × GainfulPrices {F = F} embed exact weigh prices)
  unfolding calc_best_paths
  calc_best_paths-cases Range prices priced compared in_range sums fits =
      let costs : All (λ e. Range e.cost) (priced_graph prices) =
        All_of_mem (λ e. Range e.cost) (priced_graph prices)
          λ e m.
            let (p, n, same) = priced_graph-mem prices e m in
            let (units, converts, inside) =
              All-mem (λ p. (units : ℕ) × (a.try_into_u128 p.1 ≡ some units) × Range units) p prices
                in_range n in
            subst (λ x. Range x.cost) same (rw (units_of, converts) inside) in
      elim (graph_of-cases prices {F = F} (currencies_of prices [])) [
        | inr (_, (p, n, fails)) ↦
            let (units, converts, _) =
              All-mem (λ p. (units : ℕ) × (a.try_into_u128 p.1 ≡ some units) × Range units) p prices
                in_range n in
            absurd (none≢some (sym fails ∙ converts))
        | inl built ↦
            elim (longest_paths_mult-cases embed exact float_of weigh Range (priced_graph prices)
              priced compared costs sums) [
                | inr (bad, cycle) ↦
                    inr (rw (built, bad) refl, gainful embed exact weigh prices cycle)
                | inl (m, done, routes) ↦
                    let keys =
                      longest_paths_mult-Keys (IsNamed prices) _ done
                        (priced_graph-Ends F prices) in
                    let (result, named, best) =
                      named_matrix embed exact weigh prices fits m routes keys in
                    inl (result, rw (built, done) named, best)
              ]
      ]

-- A price whose amount does not convert into a `u128` fails the whole calculation with the conversion
-- error, whatever the other prices are: no path is computed, and nothing panics.
pub calc_best_paths-conversion_error :
    {C A : Type 0} (F : Type 0) ⦃oc : Ord C⦄ ⦃a : Amount A⦄ ⦃fl : Float F⦄ ⦃fm : FloatMul F⦄
    ⦃fc : FloatCast F⦄ (prices : List (ProviderPair C × A)) (pp : ProviderPair C) (cost : A)
    → (pp, cost) ∈ prices
    → a.try_into_u128 cost ≡ none
    → calc_best_paths F prices ≡ returns (Types.err Types.conversion_error)
unfolding calc_best_paths
calc_best_paths-conversion_error F prices pp cost m fails =
    rw
      (graph_of-fails prices {F = F} (currencies_of prices []) (pp, cost) m fails
        (currencies_of-mem prices [] pp cost m).0)
      refl

-- The keys of the result ascend, as in every `BTreeMap`.
pub calc_best_paths-Ascends :
    {C A : Type 0} (F : Type 0) ⦃oc : Ord C⦄ ⦃a : Amount A⦄ ⦃fl : Float F⦄ ⦃fm : FloatMul F⦄
    ⦃fc : FloatCast F⦄ (prices : List (ProviderPair C × A)) {m : BTreeMap (Pair C) (PricePath C A)}
    → calc_best_paths F prices ≡ give m
    → Ascends m
unfolding calc_best_paths
calc_best_paths-Ascends F prices h =
    let currencies = currencies_of prices [] in
    let providers = providers_of prices [] in
    let (graph, _, h1) =
      give_of_bind
        (graph_of {F = F} (numbered currencies 0 []) (numbered providers 0 []) currencies prices) _
        h in
    let (paths, _, h2) = give_of_bind (step_of (longest_paths_mult graph)) _ h1 in
    let (named, _, h3) = give_of_bind (traverse (named_path currencies providers) paths) _ h2 in
    subst Ascends (give-injective h3) (collect-Ascends named [] tt)
