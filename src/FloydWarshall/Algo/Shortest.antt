-- ===== src/FloydWarshall/Algo/Shortest.antt =====
-- pallets/aggregator/src/best_path_calculator/floyd_warshall/algo.rs: what `shortest_paths` computes
-- from edges of which several may join the same vertices.
use Prim.Native.Nat.Ordering.{lt, eq}
use substrate_aggregator.Prelude.{◌≡◌, ◌≢◌, List, [], ◌∷◌, map, ◌⊎◌, All, All_of_mem, All-mem}
use substrate_aggregator.Ord.{Ord}
use substrate_aggregator.Collections.BTreeMap.Entries.{Distinct}
use substrate_aggregator.FloydWarshall.Float.{Float}
use substrate_aggregator.FloydWarshall.MinPlus.{Costs, Fits}
use substrate_aggregator.FloydWarshall.Algo.{
  Edge, Matrix, vertices_of, shortest_paths, ok, err, negative_cycles_error,
}
use substrate_aggregator.FloydWarshall.Algo.Walk.{IsExact, embed_edge}
use substrate_aggregator.FloydWarshall.Algo.Initial.{initial_costs}
use substrate_aggregator.FloydWarshall.Algo.Unique.{
  IsCompared, chosen-Distinct, chosen-mem, unique_cheapest_edges-chosen,
}
use substrate_aggregator.FloydWarshall.Algo.Picks.{chosen}
use substrate_aggregator.FloydWarshall.Algo.Correct.{
  IsGraph, AnswersFor, NegativeCycle, floyd_warshall-cases,
}

All-ne-map :
    {F G : Type 0} (embed : G → F) (e : Edge G) (es : List (Edge G))
    → All (λ x. x.pair ≢ e.pair) es
    → All (λ x. x.pair ≢ e.pair) (map (embed_edge embed) es)
All-ne-map embed e [] h = tt
All-ne-map embed e (x ∷ es) h = (h.0, All-ne-map embed e es h.1)

pub Distinct-map :
    {F G : Type 0} (embed : G → F) (es : List (Edge G))
    → Distinct (λ e. e.pair) es
    → Distinct (λ e. e.pair) (map (embed_edge embed) es)
Distinct-map embed [] h = tt
Distinct-map embed (e ∷ es) h = (All-ne-map embed e es h.0, Distinct-map embed es h.1)

pub lt≢eq : lt ≢ eq
lt≢eq e = cc

module _ {F G : Type 0} ⦃fl : Float F⦄ ⦃g : Costs G⦄ ⦃o : Ord G⦄ (embed : G → F)
    (exact : IsExact embed) where
  -- The sums that the loops compare, from some edges, stay in the exact range.
  abbrev pub SumsFit : List (Edge G) → Type 0
  SumsFit graph =
      let vertices = vertices_of (map (embed_edge embed) graph) [] in
      Fits exact.Exact vertices vertices (initial_costs embed exact graph)

  chosen-IsGraph :
      (graph : List (Edge G))
      → All (λ e. exact.Exact e.cost) graph
      → SumsFit (chosen lt graph)
      → IsGraph embed exact (chosen lt graph)
  chosen-IsGraph graph costs sums = record {
    one_per_pair = Distinct-map embed (chosen lt graph) (chosen-Distinct lt lt≢eq graph);
    edge_costs =
        All_of_mem (λ e. exact.Exact e.cost) (chosen lt graph)
          λ e m. All-mem (λ x. exact.Exact x.cost) e graph costs (chosen-mem lt lt≢eq graph e m);
    sums = sums;
  }

  -- Let the costs of the edges and the sums that the loops compare be in the exact range, and the
  -- costs be compared as they are. Then the calculation never panics. With one dearest edge chosen
  -- for each pair of vertices, it returns a matrix with a cheapest walk along the chosen edges for
  -- each pair that such a walk joins, and no closed walk along them has a negative cost; or it
  -- reports a negative cycle, and a closed walk along them has a negative cost.
  pub shortest_paths-cases :
      (graph : List (Edge G))
      → IsCompared exact.Exact embed
      → All (λ e. exact.Exact e.cost) graph
      → SumsFit (chosen lt graph)
      → ((m : Matrix F) × (shortest_paths (map (embed_edge embed) graph) ≡ ok m)
          × AnswersFor embed exact (chosen lt graph) m)
        ⊎ ((shortest_paths (map (embed_edge embed) graph) ≡ err negative_cycles_error)
            × NegativeCycle embed exact (chosen lt graph))
  unfolding shortest_paths
  shortest_paths-cases graph compared costs sums =
      rw (unique_cheapest_edges-chosen lt exact.Exact embed compared graph costs)
        (floyd_warshall-cases embed exact (chosen lt graph) (chosen-IsGraph graph costs sums))
