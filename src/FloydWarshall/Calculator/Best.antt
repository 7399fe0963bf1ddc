-- ===== src/FloydWarshall/Calculator/Best.antt =====
-- pallets/aggregator/src/best_path_calculator/floyd_warshall/calculator.rs: the paths of prices
-- that the calculation finds, those with the smallest sums of computed negated logarithms.
use Prim.Native.Nat.Ordering.{gt}
use mathlib.Core.Bool.{false≢true}
use substrate_aggregator.Prelude.{
  ℕ, ◌≡◌, sym, ap, ◌∙◌, subst, some, List, [], ◌∷◌, ◌∈◌, map, All, All-mem, All_of_mem, get_elem?,
  true, false,
}
use substrate_aggregator.Ord.{Ord, nat_ord, tuple_ord}
use substrate_aggregator.Collections.BTreeMap
use substrate_aggregator.Collections.BTreeMap.{BTreeMap}
use substrate_aggregator.Types.{Pair, ProviderPair, PricePath, pair_ord}
use substrate_aggregator.Pallet.State.{Amount}
use substrate_aggregator.FloydWarshall.Float.{Float, FloatMul, FloatCast}
use substrate_aggregator.FloydWarshall.MinPlus.{Costs}
use substrate_aggregator.FloydWarshall.Algo.{VertexPair, Edge, Matrix}
use substrate_aggregator.FloydWarshall.Algo.Walk.{IsExact, Chain, embed_edge}
use substrate_aggregator.FloydWarshall.Algo.Unique.{chosen-mem, chosen-covers}
use substrate_aggregator.FloydWarshall.Algo.Picks.{chosen}
use substrate_aggregator.FloydWarshall.Algo.Keys.{Both, Ends}
use substrate_aggregator.FloydWarshall.Longest.Routes.{weight, IsRoute, BestRoutes, GainfulCycle}
use substrate_aggregator.FloydWarshall.Longest.Best.{gt≢eq}
use substrate_aggregator.FloydWarshall.Calculator.{currencies_of}
use substrate_aggregator.FloydWarshall.Calculator.Offered.{priced_graph-mem, mem-priced_graph}
use substrate_aggregator.FloydWarshall.Calculator.Graph.{priced_edge-Names}
use substrate_aggregator.FloydWarshall.Calculator.Priced.{float_of, priced_graph}
use substrate_aggregator.FloydWarshall.Calculator.Hops.{
  Linked, to_edges, hops_of_edges, Chain-Linked, IsPricePath,
}

Ends-map :
    {X F : Type 0} (P : ℕ → Type 0) (f : X → F) (es : List (Edge X))
    → Ends P es
    → Ends P (map (embed_edge f) es)
Ends-map P f [] h = tt
Ends-map P f (e ∷ es) (both, h) = (both, Ends-map P f es h)

module _ {C A : Type 0} ⦃oc : Ord C⦄ (prices : List (ProviderPair C × A)) where
  -- A number of a currency.
  abbrev pub IsNamed : ℕ → Type 0
  IsNamed v = (c : C) × (get_elem? (currencies_of prices []) v ≡ some c)

module _ {C A : Type 0} ⦃oc : Ord C⦄ ⦃a : Amount A⦄ (prices : List (ProviderPair C × A)) where
  -- The edges that the calculation keeps: one for each pair of currencies.
  abbrev pub kept_edges : List (Edge ℕ)
  kept_edges = chosen gt (priced_graph prices)

module _ {C A : Type 0} (F : Type 0) ⦃oc : Ord C⦄ ⦃a : Amount A⦄ ⦃fc : FloatCast F⦄
    (prices : List (ProviderPair C × A)) where
  pub priced_graph-Ends :
      Ends (IsNamed prices) (map (embed_edge {F = F} float_of) (priced_graph prices))
  priced_graph-Ends = Ends-map (IsNamed prices) float_of (priced_graph prices) (
      All_of_mem (λ e. Both (IsNamed prices) e.pair) (priced_graph prices)
        λ e m.
          let (p, n, same) = priced_graph-mem prices e m in
          let names = priced_edge-Names prices p n in
          subst (λ x. Both (IsNamed prices) x.pair) same
            ((p.0.pair.source, names.source), (p.0.pair.target, names.target)))

module _ {C A F G : Type 0} ⦃oc : Ord C⦄ ⦃a : Amount A⦄ ⦃fl : Float F⦄ ⦃fm : FloatMul F⦄
    ⦃fc : FloatCast F⦄ ⦃g : Costs G⦄ ⦃o : Ord G⦄ (embed : G → F) (exact : IsExact embed)
    (weigh : ℕ → G) (prices : List (ProviderPair C × A)) where
  abbrev pub IsKept : List (ProviderPair C × A) → Type 0
  IsKept hops = All (λ e. e ∈ (kept_edges prices)) (to_edges prices hops)

  -- The sum of the negated logarithms of some prices, as the floats compute each.
  abbrev pub hops_weight : List (ProviderPair C × A) → G
  hops_weight hops = weight embed exact float_of weigh (to_edges prices hops)

  -- Every path is one of kept prices, each pair that has a price has a path, and no linked kept
  -- prices have a smaller sum of negated logarithms than the path between their ends, which there
  -- is.
  pub record BestPricePaths (m : BTreeMap (Pair C) (PricePath C A)) : Type 0 where
    pub paths :
        (pair : Pair C) (path : PricePath C A)
        → BTreeMap.get pair m ≡ some path
        → (hops : List (ProviderPair C × A)) × IsPricePath prices F pair path hops × IsKept hops
    pub best :
        (pair : Pair C) (hop : ProviderPair C × A) (hops : List (ProviderPair C × A))
        → Linked pair.source pair.target (hop ∷ hops)
        → IsKept (hop ∷ hops)
        → (path : PricePath C A) × (found : List (ProviderPair C × A)) × (BTreeMap.get pair m
            ≡ some path)
          × IsPricePath prices F pair path found
          × IsKept found
          × (g.lt (hops_weight (hop ∷ hops)) (hops_weight found) ≡ false)
    pub covers :
        (pp : ProviderPair C) (cost : A)
        → (pp, cost) ∈ prices
        → (path : PricePath C A) × (BTreeMap.get pp.pair m ≡ some path)
    pub no_gain :
        (c : C) (hop : ProviderPair C × A) (hops : List (ProviderPair C × A))
        → Linked c c (hop ∷ hops)
        → IsKept (hop ∷ hops)
        → g.lt (hops_weight (hop ∷ hops)) g.zero ≡ false

  -- Offered prices, all kept, that lead back to where they start and whose computed negated logarithms
  -- have a sum below zero.
  pub record GainfulPrices : Type 0 where
    pub currency : C
    pub hops : List (ProviderPair C × A)
    pub offered : All (λ p. p ∈ prices) hops
    pub linked : Linked currency currency hops
    pub kept : IsKept hops
    pub gains : g.lt (hops_weight hops) g.zero ≡ true

  abbrev currencies : List C
  currencies = currencies_of prices []

  abbrev pub Routes : Matrix F → Type 0
  Routes = BestRoutes embed exact float_of weigh (kept_edges prices)

  abbrev pub Route : ℕ → ℕ → List (Edge ℕ) → Type 0
  Route = IsRoute embed exact float_of weigh (kept_edges prices)

  pub offered_hops :
      (i j : ℕ) (es : List (Edge ℕ))
      → Route i j es
      → (hops : List (ProviderPair C × A)) × All (λ p. p ∈ prices) hops
        × (to_edges prices hops ≡ es)
  offered_hops i j es route = hops_of_edges prices es (
      All_of_mem (λ e. e ∈ priced_graph prices) es
        λ e m.
          chosen-mem gt gt≢eq (priced_graph prices) e
            (All-mem (λ e. e ∈ (kept_edges prices)) e es route.edges m))

  pub gainful : GainfulCycle embed exact float_of weigh (kept_edges prices) → GainfulPrices
  gainful cycle = let (hops, m, same) = offered_hops _ _ cycle.steps cycle.route in go hops m same
    where
      go :
          (hops : List (ProviderPair C × A))
          → All (λ p. p ∈ prices) hops
          → to_edges prices hops ≡ cycle.steps
          → GainfulPrices
      go [] m same = absurd (
          false≢true (
            sym (g.le_refl g.zero)
            ∙ (ap (λ es. g.lt (weight embed exact float_of weigh es) g.zero) same ∙ cycle.gains)))
      go (hop ∷ hops) m same =
          let chain = subst (Chain cycle.vertex cycle.vertex) (sym same) cycle.route.chain in
          let name =
            ap (get_elem? currencies) (sym chain.0) ∙ (priced_edge-Names prices hop m.0).source in
          record {
            currency = hop.0.pair.source;
            hops = hop ∷ hops;
            offered = m;
            linked = Chain-Linked prices (hop ∷ hops) _ _ _ _ m name name chain;
            kept = subst (All (λ e. e ∈ (kept_edges prices))) (sym same) cycle.route.edges;
            gains =
                ap (λ es. g.lt (weight embed exact float_of weigh es) g.zero) same ∙ cycle.gains;
          }

  -- A pair that has a price has a kept one.
  pub kept_price :
      (pp : ProviderPair C) (cost : A)
      → (pp, cost) ∈ prices
      → (hop : ProviderPair C × A) × Linked pp.pair.source pp.pair.target (hop ∷ [])
        × IsKept (hop ∷ [])
  kept_price pp cost m =
      let (e, kept, (pair, _)) =
        chosen-covers gt gt≢eq (priced_graph prices) _ (mem-priced_graph prices (pp, cost) m) in
      let (hop, n, same) =
        priced_graph-mem prices e (chosen-mem gt gt≢eq (priced_graph prices) e kept) in
      let names = priced_edge-Names prices (pp, cost) m in
      let both = ap (λ (x : Edge ℕ). x.pair) same ∙ pair in
      (
        hop,
        Chain-Linked prices (hop ∷ []) _ _ _ _ (n, tt) names.source names.target
            (ap (λ (x : VertexPair). x.source) both, ap (λ (x : VertexPair). x.target) both),
        (subst (λ x. x ∈ kept_edges prices) (sym same) kept, tt),
      )
