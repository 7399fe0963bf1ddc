-- ===== src/Tests/Numbers.antt =====
-- The graph of two prices, with natural numbers for the floating point ones.
use substrate_aggregator.Prelude.{
  ℕ, ◌*◌, ◌/◌, ◌^◌, ◌≡◌, refl, inl, inr, some, List, [], ◌∷◌, get_elem?,
}
use substrate_aggregator.Ord.{nat_ord}
use substrate_aggregator.Types.{ProviderPair, provider_ord}
use substrate_aggregator.FloydWarshall.Float.{FloatCast}
use substrate_aggregator.FloydWarshall.Algo.{Edge}
use substrate_aggregator.FloydWarshall.Calculator.{
  give, currencies_of, providers_of, numbered, edge_of, pair_of_vertices,
}
use substrate_aggregator.FloydWarshall.Calculator.Numbers.{edge_of-decodes}
use substrate_aggregator.Tests.Instances.{amount, provided}

instance abbrev cast : FloatCast ℕ
cast = record { precision = 10 ^ 12; div = λ a b. a / b; of_u128 = λ n. n; to_u128 = λ n. n }

abbrev prices : List (ProviderPair ℕ × ℕ)
prices = (provided 3 7, 5 * 10 ^ 12) ∷ (provided 7 9, 2 * 10 ^ 12) ∷ []

edge_of-decodes_example :
    (e : Edge ℕ) × (edge_of
        (numbered (currencies_of prices []) 0 [])
        (numbered (providers_of prices []) 0 [])
        (provided 7 9, 2 * 10 ^ 12)
      ≡ give e)
    × (pair_of_vertices (currencies_of prices []) e.pair ≡ give (provided 7 9).pair)
    × (get_elem? (providers_of prices []) e.provider ≡ some (provided 7 9).provider)
    × (e.cost ≡ 2 * 10 ^ 12 / 10 ^ 12)
edge_of-decodes_example =
    edge_of-decodes prices (provided 7 9) (2 * 10 ^ 12) (2 * 10 ^ 12) (inr (inl refl)) refl
