-- ===== src/FloydWarshall/Calculator/Offered.antt =====
-- pallets/aggregator/src/best_path_calculator/floyd_warshall/calculator.rs: the edges of the graph
-- are those of the prices.
use substrate_aggregator.Prelude.{
  ℕ, ◌≡◌, refl, sym, ap, ◌∙◌, ◌⊎◌, inl, inr, Bool, true, false, Bool-cases, List, [], ◌∷◌, ◌∈◌,
  if◌then◌else◌, mem-append_left, mem-append_right, mem-append_split,
}
use substrate_aggregator.Ord.{Ord, ◌==◌, ==_iff}
use substrate_aggregator.Types.{ProviderPair, Provider, provider_ord}
use substrate_aggregator.Pallet.State.{Amount}
use substrate_aggregator.FloydWarshall.Algo.{Edge}
use substrate_aggregator.FloydWarshall.Calculator.{currencies_of, providers_of}
use substrate_aggregator.FloydWarshall.Calculator.Numbers.{currencies_of-mem}
use substrate_aggregator.FloydWarshall.Calculator.Priced.{
  priced_edge, outgoing, outgoing_all, priced_graph,
}

module _ {C A : Type 0} ⦃o : Ord C⦄ ⦃a : Amount A⦄ (currencies : List C)
    (providers : List Provider) where
  outgoing-mem :
      (c : C) (prices : List (ProviderPair C × A)) (e : Edge ℕ)
      → e ∈ outgoing currencies providers c prices
      → (p : ProviderPair C × A) × (p ∈ prices) × (priced_edge currencies providers p ≡ e)
  unfolding outgoing
  outgoing-mem c [] e m = absurd m
  outgoing-mem c (p ∷ prices) e m = elim (if_mem_cases (c == p.0.pair.source) _ _ e m) [
    | inl here ↦ (p, inl refl, here)
    | inr there ↦ let (q, n, same) = outgoing-mem c prices e there in (q, inr n, same)
  ]
    where
      if_mem_cases :
          (b : Bool) (x : Edge ℕ) (xs : List (Edge ℕ)) (e : Edge ℕ)
          → e ∈ (if b then x ∷ xs else xs)
          → (x ≡ e) ⊎ (e ∈ xs)
      if_mem_cases true x xs e m = m
      if_mem_cases false x xs e m = inr m

  outgoing_all-mem :
      (cs : List C) (prices : List (ProviderPair C × A)) (e : Edge ℕ)
      → e ∈ outgoing_all currencies providers cs prices
      → (p : ProviderPair C × A) × (p ∈ prices) × (priced_edge currencies providers p ≡ e)
  unfolding outgoing_all
  outgoing_all-mem [] prices e m = absurd m
  outgoing_all-mem (c ∷ cs) prices e m =
      elim (mem-append_split e (outgoing currencies providers c prices) _ m) [
        | inl here ↦ outgoing-mem c prices e here
        | inr there ↦ outgoing_all-mem cs prices e there
      ]

  mem-outgoing :
      (c : C) (prices : List (ProviderPair C × A)) (p : ProviderPair C × A)
      → p ∈ prices
      → p.0.pair.source ≡ c
      → priced_edge currencies providers p ∈ outgoing currencies providers c prices
  unfolding outgoing
  mem-outgoing c [] p m leaves = absurd m
  mem-outgoing c (q ∷ prices) p (inl here) leaves =
      rw
        ((==_iff c q.0.pair.source).1
          (sym leaves ∙ ap (λ (x : ProviderPair C × A). x.0.pair.source) (sym here)))
        (inl (ap (priced_edge currencies providers) here))
  mem-outgoing c (q ∷ prices) p (inr there) leaves =
      let rest = mem-outgoing c prices p there leaves in
      elim (Bool-cases (c == q.0.pair.source)) [
        | inl same ↦ rw same (inr rest)
        | inr other ↦ rw other rest
      ]

  mem-outgoing_all :
      (cs : List C) (prices : List (ProviderPair C × A)) (p : ProviderPair C × A)
      → p ∈ prices
      → p.0.pair.source ∈ cs
      → priced_edge currencies providers p ∈ outgoing_all currencies providers cs prices
  unfolding outgoing_all
  mem-outgoing_all [] prices p m leaves = absurd leaves
  mem-outgoing_all (c ∷ cs) prices p m (inl here) =
      mem-append_left _ _ _ (mem-outgoing c prices p m (sym here))
  mem-outgoing_all (c ∷ cs) prices p m (inr there) =
      mem-append_right _ _ _ (mem-outgoing_all cs prices p m there)

module _ {C A : Type 0} ⦃o : Ord C⦄ ⦃a : Amount A⦄ (prices : List (ProviderPair C × A)) where
  -- The edges of the graph are those of the prices.
  pub priced_graph-mem :
      (e : Edge ℕ)
      → e ∈ priced_graph prices
      → (p : ProviderPair C × A) × (p ∈ prices)
        × (priced_edge (currencies_of prices []) (providers_of prices []) p ≡ e)
  priced_graph-mem e m =
      outgoing_all-mem (currencies_of prices []) (providers_of prices []) (currencies_of prices [])
        prices e m

  pub mem-priced_graph :
      (p : ProviderPair C × A)
      → p ∈ prices
      → priced_edge (currencies_of prices []) (providers_of prices []) p ∈ priced_graph prices
  mem-priced_graph (pp, cost) m =
      mem-outgoing_all (currencies_of prices []) (providers_of prices []) (currencies_of prices [])
        prices (pp, cost) m (currencies_of-mem prices [] pp cost m).0
