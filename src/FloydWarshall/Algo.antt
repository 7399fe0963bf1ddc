-- ===== src/FloydWarshall/Algo.antt =====
-- pallets/aggregator/src/best_path_calculator/floyd_warshall/algo.rs: all shortest paths by
-- Floyd-Warshall, and the longest paths by multiplication through logarithms. The maps
-- `edges_by_pair` and `paths_by_pair` of `floyd_warshall_shortest_paths`, which it fills and never
-- reads, are left out.
pub mod Unique
pub mod Picks
pub mod Walk
pub mod Simulation
pub mod Vertices
pub mod Initial
pub mod Cycles
pub mod Correct
pub mod Shortest
pub mod Edges
pub mod Keys
use substrate_aggregator.Prelude.{
  ℕ, Ordering, Option, none, some, Bool, true, false, not, ◌&&◌, List, [], ◌∷◌, ◌++◌, map, foldl,
  if◌then◌else◌,
}
use Prim.Native.Nat.Ordering.{lt, eq, gt}
use substrate_aggregator.Ord.{nat_ord}
use substrate_aggregator.Collections.BTreeMap
use substrate_aggregator.Collections.BTreeMap.{BTreeMap}
use substrate_aggregator.Collections.BTreeSet
use substrate_aggregator.Collections.BTreeSet.{BTreeSet}
use substrate_aggregator.Types.{Pair, pair_ord}
use substrate_aggregator.FloydWarshall.Float.{Float, FloatMul}

-- `algo::Pair`, of vertices.
abbrev pub VertexPair : Type 0
VertexPair = Pair ℕ

pub record Edge (F : Type 0) : Type 0 where
  pub pair : VertexPair
  pub provider : ℕ
  pub cost : F

pub record EdgePath (F : Type 0) : Type 0 where
  pub total_cost : F
  pub edges : List (Edge F)

pub data PathCalculationError : Type 0 where
  negative_cycles_error : PathCalculationError

-- The result of a calculation, which may also panic at an `unwrap`.
pub data Calculation (A : Type 0) : Type 0 where
  ok : A → Calculation A
  err : PathCalculationError → Calculation A
  panic : Calculation A

infixl 5 ◌>>=◌
abbrev pub ◌>>=◌ : {A B : Type 0} → Calculation A → (A → Calculation B) → Calculation B
ok a >>= f = f a
err e >>= f = err e
panic >>= f = panic

abbrev pub Matrix : Type 0 → Type 0
Matrix F = BTreeMap VertexPair (EdgePath F)

abbrev pub at : ℕ → ℕ → VertexPair
at i j = record { source = i; target = j }

-- `==` on `Ordering`
abbrev pub same_ordering : Ordering → Ordering → Bool
same_ordering lt lt = true
same_ordering eq eq = true
same_ordering gt gt = true
same_ordering _ _ = false

module _ {F : Type 0} where
  -- The vertices, collected from both ends of each edge.
  unfoldable pub vertices_of : List (Edge F) → BTreeSet ℕ → BTreeSet ℕ
  vertices_of [] vertices = vertices
  vertices_of (e ∷ edges) vertices =
      vertices_of edges (BTreeSet.insert e.pair.target (BTreeSet.insert e.pair.source vertices))

module _ {F : Type 0} ⦃fl : Float F⦄ where
  -- One round of the loop of `unique_cheapest_edges`: `and_modify`, or else insert.
  unfoldable pub merge_edge :
      Ordering → BTreeMap VertexPair (Edge F) → Edge F → Calculation (BTreeMap VertexPair (Edge F))
  merge_edge ordering edges_by_pair e = elim (BTreeMap.get e.pair edges_by_pair) [
    | none ↦ ok (BTreeMap.insert e.pair e edges_by_pair)
    | some old_costed ↦ elim (fl.partial_cmp old_costed.cost e.cost) [
      | none ↦ panic
      | some c ↦ ok (
          if same_ordering c ordering
          then BTreeMap.insert e.pair e edges_by_pair
          else edges_by_pair)
    ]
  ]

  unfoldable pub merge_edges :
      Ordering
      → List (Edge F)
      → BTreeMap VertexPair (Edge F)
      → Calculation (BTreeMap VertexPair (Edge F))
  merge_edges ordering [] edges_by_pair = ok edges_by_pair
  merge_edges ordering (e ∷ edges) edges_by_pair =
      merge_edge ordering edges_by_pair e >>= merge_edges ordering edges

  unfoldable pub unique_cheapest_edges : List (Edge F) → Ordering → Calculation (List (Edge F))
  unique_cheapest_edges edges ordering =
      merge_edges ordering edges [] >>= λ edges_by_pair. ok (map (λ e. e.1) edges_by_pair)

  -- The initial matrix: an empty path at each vertex, then each edge by itself.
  unfoldable pub insert_vertices : List ℕ → Matrix F → Matrix F
  insert_vertices [] matrix = matrix
  insert_vertices (v ∷ vertices) matrix =
      insert_vertices vertices
        (BTreeMap.insert (at v v) (record { total_cost = fl.zero; edges = [] }) matrix)

  unfoldable pub insert_edges : List (Edge F) → Matrix F → Matrix F
  insert_edges [] matrix = matrix
  insert_edges (e ∷ edges) matrix = insert_edges edges (
      BTreeMap.insert (at e.pair.source e.pair.target)
        (record { total_cost = e.cost; edges = e ∷ [] }) matrix)

  -- An absent path has the cost `f64::MAX` and no edges.
  abbrev pub or_infinite : Option (EdgePath F) → EdgePath F
  or_infinite (some path) = path
  or_infinite none = record { total_cost = fl.max_value; edges = [] }

  -- The test of the loops' body: the new cost is not the infinite one, and less than the old.
  abbrev pub improves : F → F → Bool
  improves cost ij_cost = not (fl.eq cost fl.max_value) && fl.lt cost ij_cost

  -- The body of the three loops: A[i,j] = min(A[i,j], A[i,k] + A[k,j]).
  unfoldable pub relax : ℕ → ℕ → ℕ → Matrix F → Matrix F
  relax k i j matrix =
      let ij = or_infinite (BTreeMap.get (at i j) matrix) in
      let ik = or_infinite (BTreeMap.get (at i k) matrix) in
      let kj = or_infinite (BTreeMap.get (at k j) matrix) in
      let cost = fl.add ik.total_cost kj.total_cost in
      if improves cost ij.total_cost
      then BTreeMap.insert (at i j) (record { total_cost = cost; edges = ik.edges ++ kj.edges })
          matrix
      else matrix

  unfoldable pub relax_row : ℕ → ℕ → List ℕ → Matrix F → Matrix F
  relax_row k i [] matrix = matrix
  relax_row k i (j ∷ js) matrix = relax_row k i js (relax k i j matrix)

  unfoldable pub relax_rows : ℕ → List ℕ → List ℕ → Matrix F → Matrix F
  relax_rows k [] js matrix = matrix
  relax_rows k (i ∷ is) js matrix = relax_rows k is js (relax_row k i js matrix)

  unfoldable pub relax_all : List ℕ → List ℕ → Matrix F → Matrix F
  relax_all [] vertices matrix = matrix
  relax_all (k ∷ ks) vertices matrix = relax_all ks vertices (relax_rows k vertices vertices matrix)

  -- The loop that looks for a negative cycle. `unwrap` panics at an absent entry.
  unfoldable pub check_cycles : List ℕ → Matrix F → Calculation (Matrix F)
  check_cycles [] matrix = ok matrix
  check_cycles (i ∷ vertices) matrix =
      let rest = check_cycles vertices matrix in
      elim (BTreeMap.get (at i i) matrix) [
        | none ↦ panic
        | some path ↦ if fl.lt path.total_cost fl.zero then err negative_cycles_error else rest
      ]

  unfoldable pub floyd_warshall_shortest_paths : List (Edge F) → Calculation (Matrix F)
  floyd_warshall_shortest_paths edges =
      let vertices = vertices_of edges [] in
      check_cycles vertices
        (relax_all vertices vertices (insert_edges edges (insert_vertices vertices [])))

  unfoldable pub shortest_paths : List (Edge F) → Calculation (Matrix F)
  shortest_paths edges = unique_cheapest_edges edges lt >>= floyd_warshall_shortest_paths
