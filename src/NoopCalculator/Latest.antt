-- ===== src/NoopCalculator/Latest.antt =====
-- pallets/aggregator/src/best_path_calculator/noop_calculator.rs: which paths the calculator gives.
use mathlib.Core.Option
use substrate_aggregator.Prelude.{
  ◌≡◌, refl, ◌∙◌, ap, Option, if◌then◌else◌, none, some, List, [], ◌∷◌, map, returns, arith,
}
use substrate_aggregator.Ord.{Ord, ◌==◌}
use substrate_aggregator.Collections.BTreeMap
use substrate_aggregator.Collections.BTreeMap.{BTreeMap, get-insert}
use substrate_aggregator.Types.{Pair, ProviderPair, PricePath, ok, pair_ord}
use substrate_aggregator.NoopCalculator.{direct, collect, calc_best_paths}

module _ {C A : Type 0} ⦃o : Ord C⦄ where
  -- The last price that was fetched for a pair, through whichever provider.
  unfoldable pub latest_price : Pair C → List (ProviderPair C × A) → Option A
  latest_price k [] = none
  latest_price k ((pp, price) ∷ prices) = elim (latest_price k prices) [
    | some later ↦ some later
    | none ↦ if pp.pair == k then some price else none
  ]

  abbrev pub with_no_steps : A → PricePath C A
  with_no_steps price = record { total_cost = price; steps = [] }

  abbrev or_else : Option (PricePath C A) → Option (PricePath C A) → Option (PricePath C A)
  or_else none p = p
  or_else (some q) p = some q

  get-collect :
      (k : Pair C) (prices : List (ProviderPair C × A)) (m : BTreeMap (Pair C) (PricePath C A))
      → BTreeMap.get k (collect (map direct prices) m)
        ≡ or_else (Option.map with_no_steps (latest_price k prices)) (BTreeMap.get k m)
  unfolding collect latest_price
  get-collect k [] m = refl
  get-collect k ((pp, price) ∷ prices) m =
      get-collect k prices _
      ∙ (ap (or_else (Option.map with_no_steps (latest_price k prices))) (get-insert pp.pair k _ m)
          ∙ ground arith)

  -- The calculator never fails. It gives a path exactly to the pairs for which a price was fetched: the
  -- path with no steps that costs the last of these prices.
  pub calc_best_paths-latest :
      (prices : List (ProviderPair C × A))
      → (m : BTreeMap (Pair C) (PricePath C A)) × (calc_best_paths prices ≡ returns (ok m))
        × ((k : Pair C) → BTreeMap.get k m ≡ Option.map with_no_steps (latest_price k prices))
  unfolding calc_best_paths BTreeMap.get
  calc_best_paths-latest prices = (
    collect (map direct prices) [],
    refl,
    λ k. get-collect k prices [] ∙ or_else-none (Option.map with_no_steps (latest_price k prices)),
  )
    where
      or_else-none : (p : Option (PricePath C A)) → or_else p none ≡ p
      or_else-none none = refl
      or_else-none (some q) = refl
