-- ===== src/FloydWarshall/Algo/Edges.antt =====
-- pallets/aggregator/src/best_path_calculator/floyd_warshall/algo.rs: `==` and `cmp` on edges, `==` on
-- paths, and `Path::add`.
use Prim.Native.Nat.Ordering.{lt, eq, gt}
use substrate_aggregator.Prelude.{
  Ordering, Option, none, some, Bool, true, false, ◌&&◌, List, [], ◌∷◌, ◌++◌, nat_eq,
}
use substrate_aggregator.Ord.{nat_ord, ◌==◌, then_with}
use substrate_aggregator.Types.{cmp_pair, pair_ord}
use substrate_aggregator.FloydWarshall.Float.{Float}
use substrate_aggregator.FloydWarshall.Algo.{Edge, EdgePath, Calculation, ok, panic}

-- `then_with` compares the next parts only if the first are equal, so the costs, whose comparison
-- panics if one is not a number, are reached only for one pair and provider.
abbrev then_costs : Ordering → Option Ordering → Calculation Ordering
then_costs eq none = panic
then_costs eq (some c) = ok c
then_costs lt c = ok lt
then_costs gt c = ok gt

module _ {F : Type 0} ⦃fl : Float F⦄ where
  abbrev pub eq_edge : Edge F → Edge F → Bool
  eq_edge e other =
      (e.pair == other.pair) && (nat_eq e.provider other.provider && fl.eq e.cost other.cost)

  abbrev pub cmp_edge : Edge F → Edge F → Calculation Ordering
  cmp_edge e other =
      then_costs (then_with (cmp_pair e.pair other.pair) (nat_ord.cmp e.provider other.provider))
        (fl.partial_cmp e.cost other.cost)

  unfoldable pub eq_edges : List (Edge F) → List (Edge F) → Bool
  eq_edges [] [] = true
  eq_edges [] (e ∷ es) = false
  eq_edges (e ∷ es) [] = false
  eq_edges (e ∷ es) (other ∷ others) = eq_edge e other && eq_edges es others

  abbrev pub eq_path : EdgePath F → EdgePath F → Bool
  eq_path path other = fl.eq path.total_cost other.total_cost && eq_edges path.edges other.edges

  -- `Path::add`
  abbrev pub add_edge : EdgePath F → Edge F → EdgePath F
  add_edge path e = record {
    total_cost = fl.add path.total_cost e.cost;
    edges = path.edges ++ e ∷ [];
  }
