-- ===== src/FloydWarshall/Calculator/Graph.antt =====
-- pallets/aggregator/src/best_path_calculator/floyd_warshall/calculator.rs: the graph of the prices.
use mathlib.Core.List.{map-append}
use mathlib.Core.Bool.{false≢true}
use substrate_aggregator.Prelude.{
  none≢some, ℕ, ◌≡◌, refl, sym, ap, ◌∙◌, ◌⊎◌, inl, inr, Bool-cases, none, Option-cases, List, [],
  ◌∷◌, map, ◌∈◌, All, All_of_mem,
}
use substrate_aggregator.Ord.{Ord, ◌==◌, ==_iff}
use substrate_aggregator.Types.{ProviderPair, Provider, provider_ord}
use substrate_aggregator.Pallet.State.{Amount}
use substrate_aggregator.FloydWarshall.Float.{FloatCast}
use substrate_aggregator.FloydWarshall.Algo.{Edge}
use substrate_aggregator.FloydWarshall.Algo.Walk.{embed_edge}
use substrate_aggregator.FloydWarshall.Calculator.{
  Step, give, cost_of, currencies_of, providers_of, numbered, edge_of, edges_from, graph_of,
}
use substrate_aggregator.FloydWarshall.Calculator.Numbers.{
  currencies_of-mem, providers_of-mem, currencies_of-Ascends, providers_of-Ascends,
}
use substrate_aggregator.FloydWarshall.Calculator.Positions.{
  numbered-position, get_elem?-index_of, index_of_position,
}
use substrate_aggregator.FloydWarshall.Calculator.Priced.{
  not_converted, give≢not_converted, float_of, Names, units_of, priced_edge, outgoing, outgoing_all,
  Converts, Fails,
}

module _ {C A : Type 0} ⦃o : Ord C⦄ ⦃a : Amount A⦄ (all_prices : List (ProviderPair C × A)) where
  abbrev currencies : List C
  currencies = currencies_of all_prices []

  abbrev providers : List Provider
  providers = providers_of all_prices []

  pub priced_edge-Names :
      (p : ProviderPair C × A)
      → p ∈ all_prices
      → Names currencies providers (priced_edge currencies providers p) p.0
  priced_edge-Names (pp, cost) m =
      let (source_in, target_in) = currencies_of-mem all_prices [] pp cost m in
      record {
        source = get_elem?-index_of pp.pair.source currencies source_in;
        target = get_elem?-index_of pp.pair.target currencies target_in;
        provider =
            get_elem?-index_of pp.provider providers (providers_of-mem all_prices [] pp cost m);
      }

  module _ {F : Type 0} ⦃fc : FloatCast F⦄ where
    abbrev to_floats : List (Edge ℕ) → List (Edge F)
    to_floats = map (embed_edge float_of)

    abbrev edge_for : ProviderPair C × A → Step (Edge F)
    edge_for = edge_of (numbered currencies 0 []) (numbered providers 0 [])

    edge_of-cases :
        (p : ProviderPair C × A)
        → p ∈ all_prices
        → ((edge_for p ≡ give (embed_edge float_of (priced_edge currencies providers p)))
            × Converts p)
          ⊎ ((edge_for p ≡ not_converted) × (a.try_into_u128 p.1 ≡ none))
    unfolding edge_of
    edge_of-cases (pp, cost) m =
        let (source_in, target_in) = currencies_of-mem all_prices [] pp cost m in
        let (i, e1, at1) = numbered-position currencies pp.pair.source source_in in
        let (j, e2, at2) = numbered-position currencies pp.pair.target target_in in
        let (k, e3, at3) =
          numbered-position providers pp.provider (providers_of-mem all_prices [] pp cost m) in
        let asc = currencies_of-Ascends all_prices [] tt in
        let same_i = index_of_position currencies i asc at1 in
        let same_j = index_of_position currencies j asc at2 in
        let same_k = index_of_position providers k (providers_of-Ascends all_prices [] tt) at3 in
        elim (Option-cases (a.try_into_u128 cost)) [
          | inl e ↦ inr (rw (e1, e2, e3, cost_of, e) refl, e)
          | inr (units, e) ↦
              inl (rw (e1, e2, e3, cost_of, units_of, e, same_i, same_j, same_k) refl, (units, e))
        ]

    edges_from-cases :
        (c : C) (prices : List (ProviderPair C × A))
        → All (λ p. p ∈ all_prices) prices
        → (edges_from (numbered currencies 0 []) (numbered providers 0 []) c prices
            ≡ give (to_floats (outgoing currencies providers c prices)))
          ⊎ ((edges_from {F = F} (numbered currencies 0 []) (numbered providers 0 []) c prices
                ≡ not_converted)
              × Fails prices)
    unfolding edges_from outgoing
    edges_from-cases c [] h = inl refl
    edges_from-cases c ((pp, cost) ∷ prices) (m, h) = elim (Bool-cases (c == pp.pair.source)) [
      | inr other ↦ elim (edges_from-cases c prices h) [
        | inl e ↦ inl (rw (other, e) refl)
        | inr (e, (p, n, fails)) ↦ inr (rw (other, e) refl, (p, inr n, fails))
      ]
      | inl same ↦ elim (edge_of-cases (pp, cost) m) [
        | inr (e, fails) ↦ inr (rw (same, e) refl, ((pp, cost), inl refl, fails))
        | inl (e, _) ↦ elim (edges_from-cases c prices h) [
          | inl es ↦ inl (rw (same, e, es) refl)
          | inr (es, (p, n, fails)) ↦ inr (rw (same, e, es) refl, (p, inr n, fails))
        ]
      ]
    ]

    -- A price whose amount does not convert fails the loop over the currency that it leaves, and so all.
    edges_from-fails :
        (c : C) (prices : List (ProviderPair C × A))
        → All (λ p. p ∈ all_prices) prices
        → (p : ProviderPair C × A) → p ∈ prices
        → a.try_into_u128 p.1 ≡ none
        → p.0.pair.source ≡ c
        → edges_from {F = F} (numbered currencies 0 []) (numbered providers 0 []) c prices
          ≡ not_converted
    unfolding edges_from
    edges_from-fails c [] h p m fails leaves = absurd m
    edges_from-fails c ((pp, cost) ∷ prices) (n, h) p m fails leaves =
        elim (Bool-cases (c == pp.pair.source)) [
          | inr other ↦ elim m [
            | inl here ↦ absurd (
                false≢true (
                  sym other
                  ∙ (==_iff c pp.pair.source).1
                      (sym leaves ∙ ap (λ (x : ProviderPair C × A). x.0.pair.source) (sym here))))
            | inr there ↦ rw (other, edges_from-fails c prices h p there fails leaves) refl
          ]
          | inl same ↦ elim (edge_of-cases (pp, cost) n) [
            | inr (e, _) ↦ rw (same, e) refl
            | inl (e, (units, converts)) ↦ elim m [
              | inl here ↦ absurd (
                  none≢some (
                    sym fails
                    ∙ ap (λ (x : ProviderPair C × A). a.try_into_u128 x.1) (sym here)
                    ∙ converts))
              | inr there ↦ rw (same, e, edges_from-fails c prices h p there fails leaves) refl
            ]
          ]
        ]

    pub graph_of-cases :
        (cs : List C)
        → (graph_of (numbered currencies 0 []) (numbered providers 0 []) cs all_prices
            ≡ give (to_floats (outgoing_all currencies providers cs all_prices)))
          ⊎ ((graph_of {F = F} (numbered currencies 0 []) (numbered providers 0 []) cs all_prices
                ≡ not_converted)
              × Fails all_prices)
    unfolding graph_of outgoing_all
    graph_of-cases [] = inl refl
    graph_of-cases (c ∷ cs) =
        elim (edges_from-cases c all_prices
          (All_of_mem (λ p. p ∈ all_prices) all_prices λ p m. m)) [
            | inr (e, fails) ↦ inr (rw e refl, fails)
            | inl e ↦ elim (graph_of-cases cs) [
              | inr (es, fails) ↦ inr (rw (e, es) refl, fails)
              | inl es ↦ inl (
                  rw (e, es)
                    (ap give (
                      sym (
                        map-append (embed_edge float_of)
                          (outgoing currencies providers c all_prices)
                          (outgoing_all currencies providers cs all_prices)))))
            ]
          ]

    pub graph_of-fails :
        (cs : List C) (p : ProviderPair C × A)
        → p ∈ all_prices
        → a.try_into_u128 p.1 ≡ none
        → p.0.pair.source ∈ cs
        → graph_of {F = F} (numbered currencies 0 []) (numbered providers 0 []) cs all_prices
          ≡ not_converted
    unfolding graph_of
    graph_of-fails [] p m fails leaves = absurd leaves
    graph_of-fails (c ∷ cs) p m fails leaves =
        let all = All_of_mem (λ p. p ∈ all_prices) all_prices λ p m. m in
        elim (edges_from-cases c all_prices all) [
          | inr (e, _) ↦ rw e refl
          | inl e ↦ elim leaves [
            | inl here ↦ absurd (
                give≢not_converted (sym e ∙ edges_from-fails c all_prices all p m fails (sym here)))
            | inr there ↦ rw (e, graph_of-fails cs p m fails there) refl
          ]
        ]
