-- ===== src/FloydWarshall/Calculator/Hops.antt =====
-- pallets/aggregator/src/best_path_calculator/floyd_warshall/calculator.rs: a path of edges is turned back
-- into one of prices.
use mathlib.Core.Option.{some-injective}
use substrate_aggregator.Prelude.{
  ℕ, ◌≡◌, refl, sym, ap, ◌∙◌, some, List, [], ◌∷◌, ◌∈◌, map, All, get_elem?,
}
use substrate_aggregator.Ord.{Ord}
use substrate_aggregator.Types.{Pair, ProviderPair, Provider, PathStep, PricePath}
use substrate_aggregator.Pallet.State.{Amount}
use substrate_aggregator.FloydWarshall.Float.{FloatMul, FloatCast}
use substrate_aggregator.FloydWarshall.Algo.{VertexPair, Edge, EdgePath}
use substrate_aggregator.FloydWarshall.Algo.Walk.{Chain, embed_edge}
use substrate_aggregator.FloydWarshall.Longest.{product}
use substrate_aggregator.FloydWarshall.Calculator.{
  give, traverse, amount_of, currencies_of, providers_of, pair_of_vertices, step_of_edge,
  named_path,
}
use substrate_aggregator.FloydWarshall.Calculator.Positions.{index_of}
use substrate_aggregator.FloydWarshall.Calculator.Offered.{priced_graph-mem}
use substrate_aggregator.FloydWarshall.Calculator.Graph.{priced_edge-Names}
use substrate_aggregator.FloydWarshall.Calculator.Priced.{
  float_of, units_of, priced_edge, priced_graph,
}

module _ {C A : Type 0} where
  -- Consecutive prices, from one currency to another.
  abbrev pub Linked : C → C → List (ProviderPair C × A) → Type 0
  Linked c d [] = c ≡ d
  Linked c d ((pp, cost) ∷ hops) = (pp.pair.source ≡ c) × Linked pp.pair.target d hops

module _ {C A : Type 0} (F : Type 0) ⦃a : Amount A⦄ ⦃fm : FloatMul F⦄ ⦃fc : FloatCast F⦄ where
  -- A step repeats the pair and the provider of a price; its cost is the price that went through a
  -- float and came back.
  pub record IsHop (hop : ProviderPair C × A) (step : PathStep C A) : Type 0 where
    pub pair : step.pair ≡ hop.0.pair
    pub provider : step.provider ≡ hop.0.provider
    pub cost : amount_of {A = A} {F = F} (float_of (units_of hop.1)) ≡ give step.cost

  abbrev pub AreHops : List (ProviderPair C × A) → List (PathStep C A) → Type 0
  AreHops [] [] = Unit
  AreHops (hop ∷ hops) (step ∷ steps) = IsHop hop step × AreHops hops steps
  AreHops _ _ = ⊥

module _ {C A : Type 0} ⦃o : Ord C⦄ ⦃a : Amount A⦄ (prices : List (ProviderPair C × A)) where
  abbrev currencies : List C
  currencies = currencies_of prices []

  abbrev providers : List Provider
  providers = providers_of prices []

  abbrev pub to_edges : List (ProviderPair C × A) → List (Edge ℕ)
  to_edges = map (priced_edge currencies providers)

  -- Edges of the graph are those of some prices.
  pub hops_of_edges :
      (es : List (Edge ℕ))
      → All (λ e. e ∈ priced_graph prices) es
      → (hops : List (ProviderPair C × A)) × All (λ p. p ∈ prices) hops × (to_edges hops ≡ es)
  hops_of_edges [] h = ([], tt, refl)
  hops_of_edges (e ∷ es) (m, h) =
      let (p, n, same) = priced_graph-mem prices e m in
      let (hops, ns, all_same) = hops_of_edges es h in (p ∷ hops, (n, ns), rw (same, all_same) refl)

  -- A chain of edges links the currencies of its ends.
  pub Chain-Linked :
      (hops : List (ProviderPair C × A)) (i j : ℕ) (c d : C)
      → All (λ p. p ∈ prices) hops
      → get_elem? currencies i ≡ some c
      → get_elem? currencies j ≡ some d
      → Chain i j (to_edges hops)
      → Linked c d hops
  Chain-Linked [] i j c d h at_i at_j chain =
      some-injective _ _ (sym at_i ∙ (ap (get_elem? currencies) chain ∙ at_j))
  Chain-Linked ((pp, cost) ∷ hops) i j c d (m, h) at_i at_j (leaves, chain) =
      let names = priced_edge-Names prices (pp, cost) m in
      (
        some-injective _ _ (sym names.source ∙ (ap (get_elem? currencies) leaves ∙ at_i)),
        Chain-Linked hops _ j pp.pair.target d h names.target at_j chain,
      )

  pub Linked-Chain :
      (hops : List (ProviderPair C × A)) (c d : C)
      → Linked c d hops
      → Chain (index_of c currencies) (index_of d currencies) (to_edges hops)
  Linked-Chain [] c d h = ap (λ x. index_of x currencies) h
  Linked-Chain ((pp, cost) ∷ hops) c d (leaves, h) =
      (ap (λ x. index_of x currencies) leaves, Linked-Chain hops pp.pair.target d h)

  module _ (F : Type 0) ⦃fm : FloatMul F⦄ ⦃fc : FloatCast F⦄ where
    -- The path of some prices between two currencies, with their product.
    pub record IsPricePath (pair : Pair C) (path : PricePath C A) (hops : List (ProviderPair C × A))
        : Type 0 where
      pub offered : All (λ p. p ∈ prices) hops
      pub linked : Linked pair.source pair.target hops
      pub steps : AreHops F hops path.steps
      pub total :
          amount_of {A = A} {F = F} (product (map (embed_edge float_of) (to_edges hops)))
          ≡ give path.total_cost

    module _ (fits : (x : F) → (amount : A) × (amount_of {A = A} x ≡ give amount)) where
      step_of_edge-IsHop :
          (hop : ProviderPair C × A)
          → hop ∈ prices
          → (step : PathStep C A) × (step_of_edge {F = F} currencies providers
                (embed_edge float_of (priced_edge currencies providers hop))
              ≡ give step)
            × IsHop F hop step
      unfolding step_of_edge pair_of_vertices
      step_of_edge-IsHop hop m =
          let names = priced_edge-Names prices hop m in
          let (amount, e) = fits (float_of (units_of hop.1)) in
          (
            record { pair = hop.0.pair; provider = hop.0.provider; cost = amount },
            rw (names.source, names.target, names.provider, e) refl,
            record { pair = refl; provider = refl; cost = e },
          )

      steps-AreHops :
          (hops : List (ProviderPair C × A))
          → All (λ p. p ∈ prices) hops
          → (steps : List (PathStep C A)) × (traverse
                (step_of_edge {F = F} currencies providers)
                (map (embed_edge float_of) (to_edges hops))
              ≡ give steps)
            × AreHops F hops steps
      unfolding traverse
      steps-AreHops [] h = ([], refl, tt)
      steps-AreHops (hop ∷ hops) (m, h) =
          let (step, e, is_hop) = step_of_edge-IsHop hop m in
          let (steps, es, are_hops) = steps-AreHops hops h in
          (step ∷ steps, rw (e, es) refl, (is_hop, are_hops))

      -- The names of a path along edges of prices.
      pub named_path-IsPricePath :
          (vertices : VertexPair) (c d : C) (path : EdgePath F) (hops : List (ProviderPair C × A))
          → get_elem? currencies vertices.source ≡ some c
          → get_elem? currencies vertices.target ≡ some d
          → All (λ p. p ∈ prices) hops
          → Chain vertices.source vertices.target (to_edges hops)
          → path.edges ≡ map (embed_edge float_of) (to_edges hops)
          → path.total_cost ≡ product (map (embed_edge float_of) (to_edges hops))
          → (named : PricePath C A) × (named_path currencies providers (vertices, path)
              ≡ give (record { source = c; target = d }, named))
            × IsPricePath (record { source = c; target = d }) named hops
      unfolding named_path pair_of_vertices
      named_path-IsPricePath vertices c d path hops at_source at_target m chain edges total =
          let (total_cost, e) = fits path.total_cost in
          let (steps, es, are_hops) = steps-AreHops hops m in
          (
            record { total_cost = total_cost; steps = steps },
            rw (at_source, at_target, e, edges, es) refl,
            record {
              offered = m;
              linked = Chain-Linked hops _ _ c d m at_source at_target chain;
              steps = are_hops;
              total = ap amount_of (sym total) ∙ e;
            },
          )
