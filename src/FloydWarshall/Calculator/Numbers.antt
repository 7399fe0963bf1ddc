-- ===== src/FloydWarshall/Calculator/Numbers.antt =====
-- pallets/aggregator/src/best_path_calculator/floyd_warshall/calculator.rs: the numbers of currencies and
-- providers stand for them.
use substrate_aggregator.Prelude.{
  ℕ, ◌≡◌, refl, subst, inl, inr, some, List, [], ◌∷◌, ◌∈◌, get_elem?,
}
use substrate_aggregator.Ord.{Ord}
use substrate_aggregator.Collections.BTreeSet.{BTreeSet, Ascends, insert-mem, insert-mem_self}
use substrate_aggregator.Collections.BTreeSet.Elements.{insert-Ascends}
use substrate_aggregator.Types.{ProviderPair, Provider, provider_ord}
use substrate_aggregator.Pallet.State.{Amount}
use substrate_aggregator.FloydWarshall.Float.{FloatCast}
use substrate_aggregator.FloydWarshall.Algo.{Edge}
use substrate_aggregator.FloydWarshall.Calculator.{
  give, cost_of, currencies_of, providers_of, numbered, edge_of, pair_of_vertices,
}
use substrate_aggregator.FloydWarshall.Calculator.Positions.{numbered-position}

module _ {C A : Type 0} ⦃o : Ord C⦄ where
  currencies_of-kept :
      (prices : List (ProviderPair C × A)) (s : BTreeSet C) (c : C)
      → c ∈ s
      → c ∈ currencies_of prices s
  unfolding currencies_of
  currencies_of-kept [] s c m = m
  currencies_of-kept ((pp, cost) ∷ prices) s c m =
      currencies_of-kept prices _ c
        (insert-mem pp.pair.target c _ (insert-mem pp.pair.source c s m))

  pub currencies_of-Ascends :
      (prices : List (ProviderPair C × A)) (s : BTreeSet C)
      → Ascends s
      → Ascends (currencies_of prices s)
  unfolding currencies_of
  currencies_of-Ascends [] s h = h
  currencies_of-Ascends ((pp, cost) ∷ prices) s h =
      currencies_of-Ascends prices _
        (insert-Ascends pp.pair.target _ (insert-Ascends pp.pair.source s h))

  -- Both currencies of a price are among the currencies.
  pub currencies_of-mem :
      (prices : List (ProviderPair C × A)) (s : BTreeSet C) (pp : ProviderPair C) (cost : A)
      → (pp, cost) ∈ prices
      → (pp.pair.source ∈ currencies_of prices s) × (pp.pair.target ∈ currencies_of prices s)
  unfolding currencies_of
  currencies_of-mem [] s pp cost m = absurd m
  currencies_of-mem ((qq, dear) ∷ prices) s pp cost (inr there) =
      currencies_of-mem prices _ pp cost there
  currencies_of-mem ((qq, dear) ∷ prices) s pp cost (inl here) =
      let both : (qq.pair.source ∈ currencies_of ((qq, dear) ∷ prices) s)
          × (qq.pair.target ∈ currencies_of ((qq, dear) ∷ prices) s) =
        (
          currencies_of-kept prices _ qq.pair.source
              (insert-mem qq.pair.target qq.pair.source _ (insert-mem_self qq.pair.source s)),
          currencies_of-kept prices _ qq.pair.target (insert-mem_self qq.pair.target _),
        ) in
      subst
        (λ (x : ProviderPair C × A).
          (x.0.pair.source ∈ currencies_of ((qq, dear) ∷ prices) s)
          × (x.0.pair.target ∈ currencies_of ((qq, dear) ∷ prices) s))
        here both

module _ {C A : Type 0} where
  providers_of-kept :
      (prices : List (ProviderPair C × A)) (s : BTreeSet Provider) (p : Provider)
      → p ∈ s
      → p ∈ providers_of prices s
  unfolding providers_of
  providers_of-kept [] s p m = m
  providers_of-kept ((pp, cost) ∷ prices) s p m =
      providers_of-kept prices _ p (insert-mem pp.provider p s m)

  pub providers_of-Ascends :
      (prices : List (ProviderPair C × A)) (s : BTreeSet Provider)
      → Ascends s
      → Ascends (providers_of prices s)
  unfolding providers_of
  providers_of-Ascends [] s h = h
  providers_of-Ascends ((pp, cost) ∷ prices) s h =
      providers_of-Ascends prices _ (insert-Ascends pp.provider s h)

  pub providers_of-mem :
      (prices : List (ProviderPair C × A)) (s : BTreeSet Provider) (pp : ProviderPair C) (cost : A)
      → (pp, cost) ∈ prices
      → pp.provider ∈ providers_of prices s
  unfolding providers_of
  providers_of-mem [] s pp cost m = absurd m
  providers_of-mem ((qq, dear) ∷ prices) s pp cost (inr there) =
      providers_of-mem prices _ pp cost there
  providers_of-mem ((qq, dear) ∷ prices) s pp cost (inl here) =
      subst (λ (x : ProviderPair C × A). x.0.provider ∈ providers_of ((qq, dear) ∷ prices) s) here
        (providers_of-kept prices _ qq.provider (insert-mem_self qq.provider s))

module _ {C A F : Type 0} ⦃o : Ord C⦄ ⦃a : Amount A⦄ ⦃fc : FloatCast F⦄ where
  -- The edge of a fetched price whose amount converts: its vertices and its provider are numbers that are
  -- turned back into the pair and the provider of the price, and its cost is the price in whole units.
  pub edge_of-decodes :
      (prices : List (ProviderPair C × A)) (pp : ProviderPair C) (cost : A) (units : ℕ)
      → (pp, cost) ∈ prices
      → a.try_into_u128 cost ≡ some units
      → (e : Edge F) × (edge_of
            (numbered (currencies_of prices []) 0 [])
            (numbered (providers_of prices []) 0 [])
            (pp, cost)
          ≡ give e)
        × (pair_of_vertices (currencies_of prices []) e.pair ≡ give pp.pair)
        × (get_elem? (providers_of prices []) e.provider ≡ some pp.provider)
        × (e.cost ≡ fc.div (fc.of_u128 units) fc.precision)
  unfolding edge_of pair_of_vertices
  edge_of-decodes prices pp cost units m converts =
      let (source_in, target_in) = currencies_of-mem prices [] pp cost m in
      let (i, e1, at1) = numbered-position (currencies_of prices []) pp.pair.source source_in in
      let (j, e2, at2) = numbered-position (currencies_of prices []) pp.pair.target target_in in
      let (k, e3, at3) =
        numbered-position (providers_of prices []) pp.provider
          (providers_of-mem prices [] pp cost m) in
      (
        record {
          pair = record { source = i; target = j };
          provider = k;
          cost = fc.div (fc.of_u128 units) fc.precision;
        },
        rw (e1, e2, e3, cost_of, converts) refl,
        rw (at1, at2) refl,
        at3,
        refl,
      )
