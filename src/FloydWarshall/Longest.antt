-- ===== src/FloydWarshall/Longest.antt =====
-- pallets/aggregator/src/best_path_calculator/floyd_warshall/algo.rs: `longest_paths_mult`, which
-- looks for the paths of largest product as the shortest ones for the negated logarithms.
pub mod Collected
pub mod ReadBack
pub mod Routes
pub mod Restored
pub mod Best
pub mod Keys
use Prim.Native.Nat.Ordering.{gt}
use substrate_aggregator.Prelude.{ℕ, Option, none, some, List, [], ◌∷◌, map, foldl}
use substrate_aggregator.Ord.{nat_ord, tuple_ord}
use substrate_aggregator.Collections.BTreeMap
use substrate_aggregator.Collections.BTreeMap.{BTreeMap}
use substrate_aggregator.Types.{pair_ord}
use substrate_aggregator.FloydWarshall.Float.{Float, FloatMul}
use substrate_aggregator.FloydWarshall.Algo.{
  VertexPair, Edge, EdgePath, Matrix, Calculation, ok, err, panic, ◌>>=◌, unique_cheapest_edges,
  shortest_paths,
}

-- The original weights, by vertices and provider.
abbrev pub Weights : Type 0 → Type 0
Weights F = BTreeMap (VertexPair × ℕ) F

module _ {F : Type 0} where
  unfoldable pub collect_weights : List (Edge F) → Weights F → Weights F
  collect_weights [] weights = weights
  collect_weights (e ∷ edges) weights =
      collect_weights edges (BTreeMap.insert (e.pair, e.provider) e.cost weights)

  -- An edge gets its weight back. Indexing a map panics at an absent key.
  unfoldable pub restore_edge : Weights F → Edge F → Calculation (Edge F)
  restore_edge weights e = elim (BTreeMap.get (e.pair, e.provider) weights) [
    | none ↦ panic
    | some weight ↦ ok (record e { cost = weight })
  ]

  unfoldable pub restore_edges : Weights F → List (Edge F) → Calculation (List (Edge F))
  restore_edges weights [] = ok []
  restore_edges weights (e ∷ edges) = restore_edge weights e >>= λ restored.
      restore_edges weights edges >>= λ others. ok (restored ∷ others)

module _ {F : Type 0} ⦃fm : FloatMul F⦄ where
  -- The weights x become -log2(x).
  abbrev pub negated_log : Edge F → Edge F
  negated_log e = record e { cost = fm.neg (fm.log2 e.cost) }

  abbrev pub with_logs : List (Edge F) → List (Edge F)
  with_logs = map negated_log

  abbrev pub product : List (Edge F) → F
  product = foldl (λ acc e. fm.mul acc e.cost) fm.one

  unfoldable pub restore_path : Weights F → EdgePath F → Calculation (EdgePath F)
  restore_path weights path = restore_edges weights path.edges >>= λ edges.
      ok (record { total_cost = product edges; edges = edges })

  -- The restored paths are collected into a new map.
  unfoldable pub restore_paths : Weights F → Matrix F → Matrix F → Calculation (Matrix F)
  restore_paths weights [] collected = ok collected
  restore_paths weights ((pair, path) ∷ paths) collected = restore_path weights path >>= λ restored.
      restore_paths weights paths (BTreeMap.insert pair restored collected)

  unfoldable pub longest_paths_mult : ⦃fl : Float F⦄ → List (Edge F) → Calculation (Matrix F)
  longest_paths_mult edges = unique_cheapest_edges edges gt >>= λ unique.
      shortest_paths (with_logs unique) >>= λ paths.
      restore_paths (collect_weights unique []) paths []
