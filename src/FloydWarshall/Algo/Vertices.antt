-- ===== src/FloydWarshall/Algo/Vertices.antt =====
-- The vertices of a graph in pallets/aggregator/src/best_path_calculator/floyd_warshall/algo.rs.
use substrate_aggregator.Prelude.{ℕ, List, [], ◌∷◌, inl, inr, subst, ◌∈◌}
use substrate_aggregator.Ord.{nat_ord}
use substrate_aggregator.Collections.BTreeSet
use substrate_aggregator.Collections.BTreeSet.{BTreeSet, insert-mem, insert-mem_self}
use substrate_aggregator.Types.{pair_ord}
use substrate_aggregator.FloydWarshall.Algo.{Edge, vertices_of}

module _ {F : Type 0} where
  vertices_of-mem :
      (edges : List (Edge F)) (s : BTreeSet ℕ) (v : ℕ) → v ∈ s → v ∈ vertices_of edges s
  unfolding vertices_of
  vertices_of-mem [] s v h = h
  vertices_of-mem (e ∷ edges) s v h =
      vertices_of-mem edges _ v (insert-mem _ v _ (insert-mem _ v s h))

  -- Both ends of an edge are vertices.
  pub ends-mem :
      (edges : List (Edge F)) (s : BTreeSet ℕ) (e : Edge F)
      → e ∈ edges
      → (e.pair.source ∈ vertices_of edges s) × (e.pair.target ∈ vertices_of edges s)
  unfolding vertices_of
  ends-mem [] s e h = absurd h
  ends-mem (x ∷ edges) s e (inr h) = ends-mem edges _ e h
  ends-mem (x ∷ edges) s e (inl h) =
      let s₁ = BTreeSet.insert x.pair.source s in
      subst
        (λ y.
          (y.pair.source ∈ vertices_of edges (BTreeSet.insert x.pair.target s₁))
          × (y.pair.target ∈ vertices_of edges (BTreeSet.insert x.pair.target s₁)))
        h
        (
          vertices_of-mem edges _ _
              (insert-mem x.pair.target _ s₁ (insert-mem_self x.pair.source s)),
          vertices_of-mem edges _ _ (insert-mem_self x.pair.target s₁),
        )
