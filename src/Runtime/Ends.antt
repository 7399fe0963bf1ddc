-- ===== src/Runtime/Ends.antt =====
-- runtime/src/lib.rs and pallets/aggregator/src/lib.rs: how a run of the off-chain worker with the
-- calculator of the runtime ends.
use Prim.Native.Nat.Ordering.{lt}
use substrate_aggregator.Prelude.{
  refl, ℕ, ◌≡◌, inl, inr, some, List, ◌∷◌, All, map, true, none, ◌⊎◌, ◌<◌, sym, ap, ◌∙◌, All-map,
}
use substrate_aggregator.Ord.{Ord, nat_ord, tuple_ord}
use substrate_aggregator.Collections.BTreeMap
use substrate_aggregator.Collections.BTreeMap.{BTreeMap}
use substrate_aggregator.Storage.{IsListing}
use substrate_aggregator.Types
use substrate_aggregator.Types.{Pair, ProviderPair, PricePath, pair_ord}
use substrate_aggregator.Pallet.Config.{Config}
use substrate_aggregator.Pallet.State.{Amount, Origins, BestPathChangesPayload, State, Result}
use substrate_aggregator.Pallet.BestPaths.{ocw_submit_best_paths_changes}
use substrate_aggregator.Pallet.Offchain.{
  done, failed, Signer, TradeProvider, fetch_prices, update_best_paths,
  fetch_prices_and_update_best_paths, best_prices_not_calculated,
}
use substrate_aggregator.Pallet.Offchain.Effect.{refreshed, fetch_prices-refreshes}
use substrate_aggregator.FloydWarshall.Float.{Float, FloatMul, FloatCast}
use substrate_aggregator.FloydWarshall.MinPlus.{Costs}
use substrate_aggregator.FloydWarshall.Algo.Walk.{IsExact, embed_edge}
use substrate_aggregator.FloydWarshall.Algo.Unique.{IsCompared}
use substrate_aggregator.FloydWarshall.Algo.Picks.{chosen}
use substrate_aggregator.FloydWarshall.Algo.Shortest.{SumsFit}
use substrate_aggregator.FloydWarshall.Longest.Routes.{IsPriced}
use substrate_aggregator.FloydWarshall.Calculator.{give, amount_of}
use substrate_aggregator.FloydWarshall.Calculator.Priced.{float_of}
use substrate_aggregator.FloydWarshall.Calculator.Best.{kept_edges, BestPricePaths, GainfulPrices}
use substrate_aggregator.FloydWarshall.Calculator.Correct.{
  calc_best_paths-cases, calc_best_paths-Ascends,
}
use substrate_aggregator.Runtime.{runtime_calculator}
use substrate_aggregator.Pallet.Offchain.Loops.{AllComparable}
use substrate_aggregator.FloydWarshall.Calculator.Collected.{give-injective}
use substrate_aggregator.FloydWarshall.Longest.{product}
use substrate_aggregator.FloydWarshall.Calculator.Hops.{to_edges}
use substrate_aggregator.Pallet.Offchain.Ends.{Submits, update_best_paths-ends}

-- Every float converts back into an amount, which converts again.
abbrev pub ConvertsBack :
    (A F : Type 0) ⦃a : Amount A⦄ ⦃fm : FloatMul F⦄ ⦃fc : FloatCast F⦄ → Type 0
ConvertsBack A F ⦃a⦄ =
    (x : F)
    → (amount : A) × (units : ℕ) × (amount_of x ≡ give amount)
      × (a.try_into_u128 amount ≡ some units)

module _ {C A F G : Type 0} ⦃oc : Ord C⦄ ⦃a : Amount A⦄ ⦃fl : Float F⦄ ⦃fm : FloatMul F⦄
    ⦃fc : FloatCast F⦄ ⦃g : Costs G⦄ ⦃o : Ord G⦄ (embed : G → F) (exact : IsExact embed)
    (weigh : ℕ → G) where
  -- The best paths can be compared with stored ones that do not cost nothing.
  best-AllComparable :
      (tolerance : ℕ) (prices : List (ProviderPair C × A)) (new : BTreeMap (Pair C) (PricePath C A))
      (stored : List (Pair C × PricePath C A))
      → BestPricePaths {F = F} embed exact weigh prices new
      → ConvertsBack A F
      → All (λ e. (units : ℕ) × (a.try_into_u128 e.1.total_cost ≡ some units) × (0 < units)) stored
      → AllComparable tolerance new stored
  best-AllComparable tolerance prices new stored best fits positive =
      All-map stored
        (λ (pair, old) (x, converts, above) path found.
          let (hops, fine, _) = best.paths pair path found in
          let (amount, y, e, again) =
            fits (product (map (embed_edge float_of) (to_edges prices hops))) in
          let same : amount ≡ path.total_cost = give-injective (sym e ∙ fine.total) in
          (x, y, converts, ap a.try_into_u128 (sym same) ∙ again, above))
        positive

  module _ {Account Public : Type 0} where
    -- Let the off-chain worker run with the calculator of the runtime on the prices, at least one,
    -- that it has fetched. Let these, the negated logarithms that the floats compute for them and
    -- the sums that the calculation compares be in the exact range; let the listed paths be those
    -- stored, each with an amount above zero as its cost; let every float convert back into an
    -- amount that converts again; and let there be an account whose payloads the pool takes, and an
    -- origin for unsigned calls. Then the run, its log lines aside, does not panic. Either it
    -- fails, and kept prices lead back to their start with a negative sum of the computed negated
    -- logarithms. Or the paths with the smallest sums of these along the kept prices are computed;
    -- and then the run submits nothing, since the stored paths are within the tolerance of the
    -- computed ones already, or it submits a payload that the chain accepts in the same state,
    -- after which each pair holds its computed path, or what it held if it has none or if the costs
    -- are within the tolerance.
    pub worker-ends :
        (c : Config) (market : TradeProvider C A) (signer : Signer Public C A) (f : Origins Account)
        (Range : ℕ → Type 0) (monitored : List (ProviderPair C)) (x : ProviderPair C × A)
        (fetched : List (ProviderPair C × A)) (stored : List (Pair C × PricePath C A))
        (block_number : ℕ) (s : State Account C A) (origin : f.Origin)
        → IsPriced embed exact float_of weigh Range
        → IsCompared exact.Exact embed
        → All (λ y. (units : ℕ) × (a.try_into_u128 y.1 ≡ some units) × Range units) (x ∷ fetched)
        → SumsFit embed exact (chosen lt (map (embed_edge weigh) (kept_edges (x ∷ fetched))))
        → ConvertsBack A F
        → All
            (λ e. (units : ℕ) × (a.try_into_u128 e.1.total_cost ≡ some units) × (0 < units))
            stored
        → fetch_prices market monitored ≡ done (x ∷ fetched)
        → IsListing stored s.best_paths
        → Submits signer
        → f.ensure_none origin ≡ true
        → ((fetch_prices_and_update_best_paths c market
                (runtime_calculator F)
                signer
                monitored
                stored
                block_number
                s
              ≡ failed (best_prices_not_calculated Types.negative_cycles_error))
            × GainfulPrices {F = F} embed exact weigh (x ∷ fetched))
          ⊎ ((new : BTreeMap (Pair C) (PricePath C A)) × BestPricePaths {F = F} embed exact weigh
                (x ∷ fetched)
                new
              × (((fetch_prices_and_update_best_paths c market
                        (runtime_calculator F)
                        signer
                        monitored
                        stored
                        block_number
                        s
                      ≡ done none)
                    × ((k : Pair C)
                        → s.best_paths k
                          ≡ refreshed c.price_change_tolerance
                              (BTreeMap.get k new)
                              (s.best_paths k)))
                  ⊎ ((p : BestPathChangesPayload Public C A) × (fetch_prices_and_update_best_paths c
                          market
                          (runtime_calculator F)
                          signer
                          monitored
                          stored
                          block_number
                          s
                        ≡ done (some p))
                      × ((s' : State Account C A) × (ocw_submit_best_paths_changes f origin p s
                            ≡ Result.ok s')
                          × ((k : Pair C)
                              → s'.best_paths k
                                ≡ refreshed c.price_change_tolerance
                                    (BTreeMap.get k new)
                                    (s.best_paths k))))))
    unfolding fetch_prices_and_update_best_paths update_best_paths
    worker-ends c market signer f Range monitored x fetched stored block_number s origin priced
          compared in_range sums fits positive prices lists submits unsigned =
        let all = x ∷ fetched in
        let back : (y : F) → (amount : A) × (amount_of y ≡ give amount) =
          λ y. let (amount, _, e, _) = fits y in (amount, e) in
        elim (calc_best_paths-cases embed exact weigh Range all priced compared in_range sums
          back) [
            | inr (bad, gainful) ↦ inl (rw (prices, bad) refl, gainful)
            | inl (new, calculated, best) ↦
                let asc = calc_best_paths-Ascends F all calculated in
                let comparable =
                  best-AllComparable c.price_change_tolerance all new stored best fits positive in
                elim (update_best_paths-ends signer c market (runtime_calculator F) x fetched stored
                  block_number s new calculated asc lists comparable submits) [
                    | inl (e, same) ↦ inr (new, best, inl (rw prices e, same))
                    | inr (p, e) ↦
                        let run : fetch_prices_and_update_best_paths c market (runtime_calculator F)
                              signer monitored stored block_number s
                            ≡ done (some p) =
                          rw prices e in
                        inr (
                          new,
                          best,
                          inr (
                            p,
                            run,
                            fetch_prices-refreshes c market (runtime_calculator F) signer f
                                monitored all stored block_number s p new origin prices calculated
                                run asc lists unsigned,
                          ),
                        )
                  ]
          ]
