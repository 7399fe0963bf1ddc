-- ===== src/FloydWarshall/Longest/Restored.antt =====
-- pallets/aggregator/src/best_path_calculator/floyd_warshall/algo.rs: the paths that
-- `longest_paths_mult` restores from those of the logarithms.
use Prim.Native.Nat.Ordering.{lt}
use substrate_aggregator.Prelude.{
  ◌≡◌, refl, sym, ap, ◌∙◌, subst, List, [], ◌∷◌, arith, ◌∈◌, All, All-mem, false, map, mem-map,
  mem-map_inv,
}
use substrate_aggregator.Ord.{Ord, nat_ord, tuple_ord}
use substrate_aggregator.Collections.BTreeMap.Entries.{Distinct}
use substrate_aggregator.Types.{pair_ord}
use substrate_aggregator.FloydWarshall.Float.{Float, FloatMul}
use substrate_aggregator.FloydWarshall.MinPlus.{Costs}
use substrate_aggregator.FloydWarshall.Algo.{Edge, ok}
use substrate_aggregator.FloydWarshall.Algo.Walk.{IsExact, HasCost, embed_edge}
use substrate_aggregator.FloydWarshall.Algo.Unique.{chosen-mem, chosen-covers}
use substrate_aggregator.FloydWarshall.Algo.Picks.{chosen}
use substrate_aggregator.FloydWarshall.Algo.Shortest.{Distinct-map, lt≢eq}
use substrate_aggregator.FloydWarshall.Longest.{
  Weights, collect_weights, restore_edge, restore_edges, with_logs,
}
use substrate_aggregator.FloydWarshall.Longest.ReadBack.{get-collect_weights, same_of_pair}
use substrate_aggregator.FloydWarshall.Longest.Routes.{IsPriced, weight}

module _ {F G X : Type 0} ⦃fl : Float F⦄ ⦃fm : FloatMul F⦄ ⦃g : Costs G⦄ ⦃o : Ord G⦄ ⦃ox : Ord X⦄
    (embed : G → F) (exact : IsExact embed) (price : X → F) (weigh : X → G) where
  module _ (Range : X → Type 0) (priced : IsPriced embed exact price weigh Range)
      (kept : List (Edge X)) (in_range : All (λ e. Range e.cost) kept)
      (distinct : Distinct (λ e. e.pair) kept) where
    abbrev pub logs : List (Edge G)
    logs = map (embed_edge weigh) kept

    abbrev pub weights : Weights F
    weights = collect_weights (map (embed_edge price) kept) []

    pub with_logs-exact :
        (es : List (Edge X))
        → All (λ e. Range e.cost) es
        → with_logs (map (embed_edge price) es) ≡ map (embed_edge embed) (map (embed_edge weigh) es)
    with_logs-exact [] h = refl
    with_logs-exact (e ∷ es) (h, hs) = λ i.
        record { pair = e.pair; provider = e.provider; cost = priced.log_exact e.cost h i }
        ∷ with_logs-exact es hs i

    -- The edges that the second choice leaves are those that the first one kept.
    of_chosen :
        (l : Edge F)
        → l ∈ map (embed_edge embed) (chosen lt logs)
        → (e : Edge X) × (e ∈ kept) × (embed_edge embed (embed_edge weigh e) ≡ l)
    of_chosen l m =
        let (k, m_k, same) = mem-map_inv (embed_edge embed) l (chosen lt logs) m in
        let (e, m_e, same') =
          mem-map_inv (embed_edge weigh) k kept (chosen-mem lt lt≢eq logs k m_k) in
        (e, m_e, ap (embed_edge embed) same' ∙ same)

    to_chosen :
        (e : Edge X)
        → e ∈ kept
        → embed_edge embed (embed_edge weigh e) ∈ map (embed_edge embed) (chosen lt logs)
    to_chosen e m =
        let m' = mem-map (embed_edge weigh) e kept m in
        let (k, m_k, (at_pair, _)) = chosen-covers lt lt≢eq logs (embed_edge weigh e) m' in
        let same =
          same_of_pair logs k (embed_edge weigh e) (Distinct-map weigh kept distinct)
            (chosen-mem lt lt≢eq logs k m_k) m' at_pair in
        subst (λ y. embed_edge embed y ∈ map (embed_edge embed) (chosen lt logs)) same
          (mem-map (embed_edge embed) k (chosen lt logs) m_k)

    pub to_chosen_all :
        (xs : List (Edge X))
        → All (λ e. e ∈ kept) xs
        → All
            (λ l. l ∈ map (embed_edge embed) (chosen lt logs))
            (map (embed_edge embed) (map (embed_edge weigh) xs))
    to_chosen_all [] h = tt
    to_chosen_all (x ∷ xs) (h, hs) = (to_chosen x h, to_chosen_all xs hs)

    restore_edge-kept :
        (e : Edge X)
        → e ∈ kept
        → restore_edge weights (embed_edge embed (embed_edge weigh e)) ≡ ok (embed_edge price e)
    unfolding restore_edge
    restore_edge-kept e m = ground (
      arith,
      get-collect_weights (map (embed_edge price) kept) (embed_edge price e) []
          (Distinct-map price kept distinct) (mem-map (embed_edge price) e kept m),
    )

    -- The edges of a path get their original prices back.
    pub restore_edges-kept :
        (es : List (Edge F))
        → All (λ l. l ∈ map (embed_edge embed) (chosen lt logs)) es
        → (xs : List (Edge X)) × (restore_edges weights es ≡ ok (map (embed_edge price) xs))
          × All (λ e. e ∈ kept) xs
          × (map (embed_edge embed) (map (embed_edge weigh) xs) ≡ es)
    unfolding restore_edges
    restore_edges-kept [] h = ([], refl, tt, refl)
    restore_edges-kept (l ∷ es) (h, hs) =
        let (e, m, same) = of_chosen l h in
        let (xs, restored, ms, same') = restore_edges-kept es hs in
        let first : restore_edge weights l ≡ ok (embed_edge price e) =
          ap (restore_edge weights) (sym same) ∙ restore_edge-kept e m in
        (e ∷ xs, rw (first, restored), (m, ms), λ i. same i ∷ same' i)

    pub weight-HasCost :
        (xs : List (Edge X))
        → All (λ e. e ∈ kept) xs
        → HasCost embed exact
            (map (embed_edge embed) (map (embed_edge weigh) xs))
            (weight embed exact price weigh xs)
    weight-HasCost [] h = refl
    weight-HasCost (x ∷ xs) (h, hs) = (
      weigh x.cost,
      weight embed exact price weigh xs,
      refl,
      priced.weigh_Exact x.cost (All-mem (λ e. Range e.cost) x kept in_range h),
      weight-HasCost xs hs,
      refl,
    )

    -- No cost of a route's logarithms is smaller than its weight.
    pub weight-le :
        (xs : List (Edge X)) (y : G)
        → All (λ e. e ∈ kept) xs
        → HasCost embed exact (map (embed_edge embed) (map (embed_edge weigh) xs)) y
        → g.lt y (weight embed exact price weigh xs) ≡ false
    weight-le [] y h c = rw c (g.le_refl g.zero)
    weight-le (x ∷ xs) y (h, hs) (a, b, cost, small, rest, sum) =
        let exact_x = priced.weigh_Exact x.cost (All-mem (λ e. Range e.cost) x kept in_range h) in
        let same : g.lt a (weigh x.cost) ≡ false =
          sym (exact.lt_exact a (weigh x.cost) small exact_x)
          ∙ (ap (fl.lt (embed a)) cost ∙ (exact.lt_exact a a small small ∙ g.le_refl a)) in
        rw sum (
          g.plus_mono (weigh x.cost) a (weight embed exact price weigh xs) b same
            (weight-le xs b hs rest))
