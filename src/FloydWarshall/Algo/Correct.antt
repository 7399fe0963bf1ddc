-- ===== src/FloydWarshall/Algo/Correct.antt =====
-- pallets/aggregator/src/best_path_calculator/floyd_warshall/algo.rs: what
-- `floyd_warshall_shortest_paths` computes.
use substrate_aggregator.Prelude.{
  ℕ, ◌≡◌, sym, ap, ◌∙◌, true, false, some, List, [], ◌∷◌, ◌⊎◌, inl, inr, subst, All, All-mem, ◌∈◌,
  map, mem-map, mem-map_inv,
}
use substrate_aggregator.Ord.{nat_ord}
use substrate_aggregator.Collections.BTreeMap
use substrate_aggregator.Types.{pair_ord}
use substrate_aggregator.FloydWarshall.Float.{Float}
use substrate_aggregator.FloydWarshall.MinPlus
use substrate_aggregator.FloydWarshall.MinPlus.{
  Costs, Table, Le, Le-trans, NonNeg, plus, plus_mono, Fits, Le-finite,
}
use substrate_aggregator.FloydWarshall.MinPlus.Closed.{relax_all-le, relax_all-NoDetour, NoDetour}
use substrate_aggregator.FloydWarshall.Algo.{
  Edge, EdgePath, Matrix, at, vertices_of, relax_all, floyd_warshall_shortest_paths, ok, err,
  negative_cycles_error,
}
use substrate_aggregator.FloydWarshall.Algo.Walk.{
  IsExact, IsWalk, embed_edge, Shows-some, Shows-finite, Chain, HasCost,
}
use substrate_aggregator.FloydWarshall.Algo.Simulation.{Simulates, relax_all-Simulates}
use substrate_aggregator.FloydWarshall.Algo.Vertices.{ends-mem}
use substrate_aggregator.FloydWarshall.Algo.Initial.{
  OnePerPair, initial, initial-present, initial-Simulates, initial-le, initial_costs,
}
use substrate_aggregator.FloydWarshall.Algo.Cycles.{check_cycles-ok, check_cycles-cases}

module _ {F G : Type 0} ⦃fl : Float F⦄ ⦃g : Costs G⦄ (embed : G → F) (exact : IsExact embed)
    (graph : List (Edge G)) where
  abbrev edges : List (Edge F)
  edges = map (embed_edge embed) graph

  abbrev vertices : List ℕ
  vertices = vertices_of edges []

  abbrev final_costs : Table G
  final_costs = MinPlus.relax_all vertices vertices (initial_costs embed exact graph)

  abbrev final : Matrix F
  final = relax_all vertices vertices (initial edges)

  -- What the calculation is asked: each pair of vertices is joined by at most one edge, and all
  -- costs that are compared are in the exact range.
  pub record IsGraph : Type 0 where
    pub one_per_pair : OnePerPair edges
    pub edge_costs : All (λ e. exact.Exact e.cost) graph
    pub sums : Fits exact.Exact vertices vertices (initial_costs embed exact graph)

  -- The matrix answers for every pair: a path that it holds is a walk along the edges with the
  -- path's cost, and there is one, which costs no more than the walk, wherever a walk with at least
  -- one edge goes.
  pub record AnswersFor (m : Matrix F) : Type 0 where
    pub walks :
        (i j : ℕ) (p : EdgePath F)
        → BTreeMap.get (at i j) m ≡ some p
        → (x : G) × (p.total_cost ≡ embed x) × IsWalk embed exact edges i j p.edges x
    pub best :
        (i j : ℕ) (e : Edge F) (es : List (Edge F)) (x : G)
        → IsWalk embed exact edges i j (e ∷ es) x
        → (p : EdgePath F) × (y : G) × (BTreeMap.get (at i j) m ≡ some p)
          × (p.total_cost ≡ embed y)
          × IsWalk embed exact edges i j p.edges y
          × (g.lt x y ≡ false)
    pub no_negative_cycle :
        (v : ℕ) (e : Edge F) (es : List (Edge F)) (x : G)
        → IsWalk embed exact edges v v (e ∷ es) x
        → g.lt x g.zero ≡ false

  -- A closed walk of negative cost.
  pub record NegativeCycle : Type 0 where
    pub vertex : ℕ
    pub steps : List (Edge F)
    pub cost : G
    pub walk : IsWalk embed exact edges vertex vertex steps cost
    pub negative : g.lt cost g.zero ≡ true

  final-Simulates : IsGraph → Simulates embed exact edges final final_costs
  final-Simulates h =
      relax_all-Simulates embed exact edges vertices vertices _ _
        (initial-Simulates embed exact graph h.edge_costs) h.sums

  initial_costs-le : (i j : ℕ) → Le (final_costs i j) (initial_costs embed exact graph i j)
  initial_costs-le i j = relax_all-le vertices vertices i j (initial_costs embed exact graph)

  -- The matrix has a path from each vertex to itself, so the check never panics.
  diagonal-present :
      (v : ℕ) → v ∈ vertices → IsGraph → (p : EdgePath F) × (BTreeMap.get (at v v) final ≡ some p)
  diagonal-present v hv h =
      let (p, found) = initial-present edges v hv in
      let (y, at_y, _, _, _) =
        Shows-some embed exact edges (initial-Simulates embed exact graph h.edge_costs v v) found in
      let (z, at_z, less) =
        Le-finite (final_costs v v) (subst (Le (final_costs v v)) at_y (initial_costs-le v v)) in
      let (q, found', _, _) = Shows-finite embed exact edges (final-Simulates h v v) at_z in
      (q, found')

  edge-le :
      (e : Edge F) (a : G)
      → IsGraph
      → e ∈ edges
      → e.cost ≡ embed a
      → exact.Exact a
      → Le (final_costs e.pair.source e.pair.target) (some a)
  edge-le e a h m cost small =
      let (e', m', same) = mem-map_inv (embed_edge embed) e graph m in
      let small' = All-mem (λ x. exact.Exact x.cost) e' graph h.edge_costs m' in
      let first =
        initial-le embed exact graph e' h.one_per_pair h.edge_costs small'
          (mem-map (embed_edge embed) e' graph m') in
      let equal : g.lt a e'.cost ≡ false =
        sym (exact.lt_exact a e'.cost small small')
        ∙ (ap (fl.lt (embed a)) (ap (λ x. x.cost) same ∙ cost)
            ∙ (exact.lt_exact a a small small ∙ g.le_refl a)) in
      subst (λ x. Le (final_costs x.pair.source x.pair.target) (some a)) same
        (Le-trans (final_costs e'.pair.source e'.pair.target)
          (initial_costs embed exact graph e'.pair.source e'.pair.target) (some a)
          (initial_costs-le e'.pair.source e'.pair.target)
          (Le-trans (initial_costs embed exact graph e'.pair.source e'.pair.target) (some e'.cost)
            (some a) first equal))

  module _ (h : IsGraph) (nonneg : (v : ℕ) → v ∈ vertices → NonNeg (final_costs v v)) where
    detour : (v : ℕ) → v ∈ vertices → NoDetour vertices v final_costs
    detour v hv =
        relax_all-NoDetour vertices vertices (initial_costs embed exact graph) (λ u hu. hu) nonneg v
          hv (inl hv)

    -- No walk is shorter than the cost between its ends.
    walk-le :
        (i j : ℕ) (e : Edge F) (es : List (Edge F)) (x : G)
        → Chain i j (e ∷ es)
        → All (λ y. y ∈ edges) (e ∷ es)
        → HasCost embed exact (e ∷ es) x
        → (i ∈ vertices) × (j ∈ vertices) × Le (final_costs i j) (some x)
    walk-le i j e [] x (start, end) (m, _) (a, b, cost, small, rest, sum) =
        let (s_in, t_in) = ends-mem edges [] e m in
        let le = edge-le e a h m cost small in
        let same : x ≡ a = sum ∙ (ap (g.plus a) rest ∙ g.plus-zero a) in
        (
          subst (λ v. v ∈ vertices) start s_in,
          subst (λ v. v ∈ vertices) end t_in,
          rw (same, ← start, ← end) le,
        )
    walk-le i j e (f ∷ es) x (start, chain) (m, ms) (a, b, cost, small, rest, sum) =
        let (s_in, t_in) = ends-mem edges [] e m in
        let le = edge-le e a h m cost small in
        let (_, j_in, le') = walk-le e.pair.target j f es b chain ms rest in
        (
          subst (λ v. v ∈ vertices) start s_in,
          j_in,
          rw (sum, ← start)
              (Le-trans (final_costs e.pair.source j)
                (plus (final_costs e.pair.source e.pair.target) (final_costs e.pair.target j))
                (some (g.plus a b)) (detour e.pair.target t_in e.pair.source j s_in j_in)
                (plus_mono (final_costs e.pair.source e.pair.target) (some a)
                  (final_costs e.pair.target j) (some b) le le')),
        )

    final-AnswersFor : AnswersFor final
    final-AnswersFor = record {
      walks = λ i j p found.
          let (x, at_x, cost, small, w) =
            Shows-some embed exact edges (final-Simulates h i j) found in
          (x, cost, w);
      best = λ i j e es x w.
          let (i_in, j_in, le) = walk-le i j e es x w.chain w.edges w.cost in
          let (y, at_y, less) = Le-finite (final_costs i j) le in
          let (p, found, cost, w') = Shows-finite embed exact edges (final-Simulates h i j) at_y in
          (p, y, found, cost, w', less);
      no_negative_cycle = λ v e es x w.
          let (v_in, _, le) = walk-le v v e es x w.chain w.edges w.cost in
          Le-trans (some g.zero) (final_costs v v) (some x) (nonneg v v_in) le;
    }

  not_negative :
      (v : ℕ) (p : EdgePath F)
      → IsGraph
      → BTreeMap.get (at v v) final ≡ some p
      → fl.lt p.total_cost fl.zero ≡ false
      → NonNeg (final_costs v v)
  not_negative v p h found not_less =
      let (y, at_y, cost, small, w) = Shows-some embed exact edges (final-Simulates h v v) found in
      rw at_y (
        sym (exact.lt_exact y g.zero small exact.zero_Exact)
        ∙ (ap (λ z. fl.lt z (embed g.zero)) (sym cost)
            ∙ (ap (fl.lt p.total_cost) exact.zero_exact ∙ not_less)))

  negative_cycle :
      (v : ℕ) (p : EdgePath F)
      → IsGraph
      → BTreeMap.get (at v v) final ≡ some p
      → fl.lt p.total_cost fl.zero ≡ true
      → NegativeCycle
  negative_cycle v p h found less =
      let (y, at_y, cost, small, w) = Shows-some embed exact edges (final-Simulates h v v) found in
      record {
        vertex = v;
        steps = p.edges;
        cost = y;
        walk = w;
        negative =
            sym (exact.lt_exact y g.zero small exact.zero_Exact)
            ∙ (ap (λ z. fl.lt z (embed g.zero)) (sym cost)
                ∙ (ap (fl.lt p.total_cost) exact.zero_exact ∙ less));
      }

  -- On a graph with at most one edge for each pair of vertices, whose costs stay in the exact range,
  -- the calculation never panics. Either it returns a matrix with a cheapest walk for each pair of
  -- vertices that a walk joins, and no closed walk has a negative cost; or it reports a negative
  -- cycle, and there is a closed walk of negative cost.
  pub floyd_warshall-cases :
      IsGraph
      → ((m : Matrix F) × (floyd_warshall_shortest_paths edges ≡ ok m) × AnswersFor m)
        ⊎ ((floyd_warshall_shortest_paths edges ≡ err negative_cycles_error) × NegativeCycle)
  unfolding floyd_warshall_shortest_paths
  floyd_warshall-cases h =
      elim (check_cycles-cases vertices final (λ v hv. diagonal-present v hv h)) [
        | inl fine ↦ inl (
          final,
          fine,
          final-AnswersFor h λ v hv.
              let (p, found, not_less) = (check_cycles-ok vertices final fine).1 v hv in
              not_negative v p h found not_less,
        )
        | inr (bad, (v, p, hv, found, less)) ↦ inr (bad, negative_cycle v p h found less)
      ]
