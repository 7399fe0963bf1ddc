-- ===== src/FloydWarshall/Longest/Best.antt =====
-- pallets/aggregator/src/best_path_calculator/floyd_warshall/algo.rs: what `longest_paths_mult`
-- computes.
use Prim.Native.Nat.Ordering.{lt, eq, gt}
use mathlib.Core.Option.{some-injective}
use mathlib.Core.Bool.{false≢true}
use substrate_aggregator.Prelude.{
  none≢some, Option-cases, ℕ, ◌≡◌, ◌≢◌, refl, sym, ap, ◌∙◌, subst, ◌⊎◌, inl, inr, some, List, [],
  ◌∷◌, All, All-mem, All_of_mem, Bool-cases, false, map,
}
use substrate_aggregator.Ord.{Ord, nat_ord, tuple_ord}
use substrate_aggregator.Collections.BTreeMap
use substrate_aggregator.Collections.BTreeMap.{get-insert}
use substrate_aggregator.Collections.BTreeMap.Entries.{Distinct, Ascends, get_of_mem}
use substrate_aggregator.Types.{pair_ord}
use substrate_aggregator.FloydWarshall.Float.{Float, FloatMul}
use substrate_aggregator.FloydWarshall.MinPlus.{Costs}
use substrate_aggregator.FloydWarshall.Algo.{
  VertexPair, Edge, EdgePath, Matrix, ok, err, at, negative_cycles_error,
}
use substrate_aggregator.FloydWarshall.Algo.Walk.{IsExact, IsWalk, Chain, HasCost, embed_edge}
use substrate_aggregator.FloydWarshall.Algo.Unique.{
  IsCompared, chosen-Distinct, chosen-mem, unique_cheapest_edges-chosen,
}
use substrate_aggregator.FloydWarshall.Algo.Picks.{chosen}
use substrate_aggregator.FloydWarshall.Algo.Correct.{AnswersFor, NegativeCycle}
use substrate_aggregator.FloydWarshall.Algo.Shortest.{SumsFit, shortest_paths-cases}
use substrate_aggregator.FloydWarshall.Algo.Keys.{ok-injective, shortest_paths-Ascends}
use substrate_aggregator.FloydWarshall.Longest.{
  Weights, collect_weights, product, restore_path, longest_paths_mult,
}
use substrate_aggregator.FloydWarshall.Longest.Collected.{Collects, restore_paths-Collects}
use substrate_aggregator.FloydWarshall.Longest.ReadBack.{Chain-map, Chain-map_inv}
use substrate_aggregator.FloydWarshall.Longest.Routes.{
  IsPriced, weight, IsRoute, IsPricedPath, BestRoutes, GainfulCycle,
}
use substrate_aggregator.FloydWarshall.Longest.Restored.{
  with_logs-exact, to_chosen_all, restore_edges-kept, weight-HasCost, weight-le,
}

pub gt≢eq : gt ≢ eq
gt≢eq e = cc

module _ {F G X : Type 0} ⦃fl : Float F⦄ ⦃fm : FloatMul F⦄ ⦃g : Costs G⦄ ⦃o : Ord G⦄ ⦃ox : Ord X⦄
    (embed : G → F) (exact : IsExact embed) (price : X → F) (weigh : X → G) where
  logs_exact :
      (Range : X → Type 0)
      → IsPriced embed exact price weigh Range
      → (es : List (Edge X)) → All (λ e. Range e.cost) es
      → All (λ e. exact.Exact e.cost) (map (embed_edge weigh) es)
  logs_exact Range priced [] h = tt
  logs_exact Range priced (e ∷ es) (h, hs) =
      (priced.weigh_Exact e.cost h, logs_exact Range priced es hs)

  module _ (Range : X → Type 0) (priced : IsPriced embed exact price weigh Range)
      (kept : List (Edge X)) (in_range : All (λ e. Range e.cost) kept)
      (distinct : Distinct (λ e. e.pair) kept) where
    abbrev log_graph : List (Edge G)
    log_graph = chosen lt (map (embed_edge weigh) kept)

    abbrev read_back : Weights F
    read_back = collect_weights (map (embed_edge price) kept) []

    -- A walk along the edges of the logarithms is restored to a route.
    restore_walk :
        (i j : ℕ) (p : EdgePath F) (y : G)
        → IsWalk embed exact (map (embed_edge embed) log_graph) i j p.edges y
        → (xs : List (Edge X)) × (q : EdgePath F) × (restore_path read_back p ≡ ok q)
          × IsPricedPath embed exact price weigh kept q xs
          × IsRoute embed exact price weigh kept i j xs
          × (g.lt y (weight embed exact price weigh xs) ≡ false)
    unfolding restore_path
    restore_walk i j p y w =
        let (xs, restored, ms, same) =
          restore_edges-kept embed exact price weigh Range priced kept in_range distinct p.edges
            w.edges in
        let chain = Chain-map_inv weigh i j xs (
          Chain-map_inv embed i j (map (embed_edge weigh) xs)
            (subst (Chain i j) (sym same) w.chain)) in
        (
          xs,
          record {
            total_cost = product (map (embed_edge price) xs);
            edges = map (embed_edge price) xs;
          },
          rw restored refl,
          record { edges = refl; total = refl },
          record { chain = chain; edges = ms },
          weight-le embed exact price weigh Range priced kept in_range distinct xs y ms
              (subst (λ es. HasCost embed exact es y) (sym same) w.cost),
        )

    -- A route is a walk along the edges of the logarithms, whose cost is the route's weight.
    route-IsWalk :
        (i j : ℕ) (xs : List (Edge X))
        → IsRoute embed exact price weigh kept i j xs
        → IsWalk embed exact
            (map (embed_edge embed) log_graph)
            i
            j
            (map (embed_edge embed) (map (embed_edge weigh) xs))
            (weight embed exact price weigh xs)
    route-IsWalk i j xs r = record {
      chain = Chain-map embed i j (map (embed_edge weigh) xs) (Chain-map weigh i j xs r.chain);
      edges = to_chosen_all embed exact price weigh Range priced kept in_range distinct xs r.edges;
      cost = weight-HasCost embed exact price weigh Range priced kept in_range distinct xs r.edges;
    }

    collected-BestRoutes :
        (m r : Matrix F)
        → AnswersFor embed exact log_graph m
        → Collects read_back m [] r
        → BestRoutes embed exact price weigh kept r
    unfolding BTreeMap.get
    collected-BestRoutes m r answers c = record {
      routes = λ i j q' found. elim (Option-cases (BTreeMap.get (at i j) m)) [
        | inl absent ↦ absurd (none≢some (sym (c.kept (at i j) absent) ∙ found))
        | inr (p, present) ↦
            let (y, _, w) = answers.walks i j p present in
            let (xs, q₂, restored, priced_path, route, _) = restore_walk i j p y w in
            let (q, restored', collected) = c.restored (at i j) p present in
            let same : q₂ ≡ q' =
              ok-injective (sym restored ∙ restored')
              ∙ some-injective _ _ (sym collected ∙ found) in
            (
              xs,
              subst (λ z. IsPricedPath embed exact price weigh kept z xs) same priced_path,
              route,
            )
      ];
      best = λ i j e es route.
          let (p, y, present, _, w, less) =
            answers.best i j (embed_edge embed (embed_edge weigh e))
              (map (embed_edge embed) (map (embed_edge weigh) es))
              (weight embed exact price weigh (e ∷ es)) (route-IsWalk i j (e ∷ es) route) in
          let (xs, q, restored, priced_path, route', le) = restore_walk i j p y w in
          let (q', restored', collected) = c.restored (at i j) p present in
          (
            q,
            xs,
            collected ∙ ap some (ok-injective (sym restored' ∙ restored)),
            priced_path,
            route',
            g.le_trans (weight embed exact price weigh xs) y
                (weight embed exact price weigh (e ∷ es)) le less,
          );
      no_gain = λ v e es route.
          answers.no_negative_cycle v (embed_edge embed (embed_edge weigh e))
            (map (embed_edge embed) (map (embed_edge weigh) es))
            (weight embed exact price weigh (e ∷ es)) (route-IsWalk v v (e ∷ es) route);
    }

    restored_all :
        (m : Matrix F)
        → Ascends m
        → AnswersFor embed exact log_graph m
        → All (λ e. (q : EdgePath F) × (restore_path read_back e.1 ≡ ok q)) m
    restored_all m asc answers =
        All_of_mem
          (λ (e : VertexPair × EdgePath F). (q : EdgePath F) × (restore_path read_back e.1 ≡ ok q))
          m
          λ (k, p) entry.
            let (y, _, w) = answers.walks k.source k.target p (get_of_mem k p m asc entry) in
            let (xs, q, restored, _, _, _) = restore_walk k.source k.target p y w in (q, restored)

    gainful : NegativeCycle embed exact log_graph → GainfulCycle embed exact price weigh kept
    gainful cycle =
        let p : EdgePath F = record { total_cost = fl.zero; edges = cycle.steps } in
        let (xs, _, _, _, route, le) =
          restore_walk cycle.vertex cycle.vertex p cycle.cost cycle.walk in
        record {
          vertex = cycle.vertex;
          steps = xs;
          route = route;
          gains = elim (Bool-cases (g.lt (weight embed exact price weigh xs) g.zero)) [
            | inl gains ↦ gains
            | inr not_so ↦ absurd (
                false≢true (
                  sym (g.le_trans g.zero (weight embed exact price weigh xs) cycle.cost not_so le)
                  ∙ cycle.negative))
          ];
        }

  -- Let the prices and the sums of their negated logarithms, as the floats compute these, be in the
  -- exact range. Then the calculation never panics. With one cheapest edge kept for each pair of
  -- vertices, it returns a matrix in which each path is a route along the kept edges with its
  -- original prices and their product for its cost; for each pair that a route joins there is a
  -- path, and no route has a smaller sum of the computed negated logarithms than it; no closed
  -- route has a negative one. Or it reports a negative cycle, and a closed route along the kept
  -- edges has a negative sum.
  pub longest_paths_mult-cases :
      (Range : X → Type 0) (graph : List (Edge X))
      → IsPriced embed exact price weigh Range
      → IsCompared exact.Exact embed
      → All (λ e. Range e.cost) graph
      → SumsFit embed exact (chosen lt (map (embed_edge weigh) (chosen gt graph)))
      → ((m : Matrix F) × (longest_paths_mult (map (embed_edge price) graph) ≡ ok m)
          × BestRoutes embed exact price weigh (chosen gt graph) m)
        ⊎ ((longest_paths_mult (map (embed_edge price) graph) ≡ err negative_cycles_error)
            × GainfulCycle embed exact price weigh (chosen gt graph))
  unfolding longest_paths_mult
  longest_paths_mult-cases Range graph priced compared costs sums =
      let kept = chosen gt graph in
      let in_range : All (λ e. Range e.cost) kept =
        All_of_mem (λ e. Range e.cost) kept
          λ e m. All-mem (λ x. Range x.cost) e graph costs (chosen-mem gt gt≢eq graph e m) in
      let distinct = chosen-Distinct gt gt≢eq graph in
      rw
        (
          unique_cheapest_edges-chosen gt Range price priced.compared graph costs,
          with_logs-exact embed exact price weigh Range priced kept in_range distinct kept in_range,
        )
        (elim (shortest_paths-cases embed exact (map (embed_edge weigh) kept) compared
          (logs_exact Range priced kept in_range) sums) [
            | inr (bad, cycle) ↦
                inr (rw bad refl, gainful Range priced kept in_range distinct cycle)
            | inl (m, done, answers) ↦
                let asc =
                  shortest_paths-Ascends (map (embed_edge embed) (map (embed_edge weigh) kept))
                    done in
                let (r, collected, c) =
                  restore_paths-Collects (collect_weights (map (embed_edge price) kept) []) m [] asc
                    (restored_all Range priced kept in_range distinct m asc answers) in
                inl (
                  r,
                  rw done collected,
                  collected-BestRoutes Range priced kept in_range distinct m r answers c,
                )
          ])
