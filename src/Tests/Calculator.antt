-- ===== src/Tests/Calculator.antt =====
-- The best paths of two prices, a half and a quarter, with the small numbers of the graphs for floats.
use substrate_aggregator.Prelude.{
  ℕ, ◌*◌, ◌^◌, ◌≡◌, refl, ◌⊎◌, inl, inr, nat_eq, if◌then◌else◌, List, [], ◌∷◌, returns,
}
use substrate_aggregator.Ord.{nat_ord, tuple_ord}
use substrate_aggregator.Collections.BTreeMap.{BTreeMap}
use substrate_aggregator.Types
use substrate_aggregator.Types.{Pair, ProviderPair, PricePath}
use substrate_aggregator.FloydWarshall.Float.{FloatCast}
use substrate_aggregator.FloydWarshall.Longest.Routes.{IsPriced}
use substrate_aggregator.FloydWarshall.Calculator.{give, calc_best_paths}
use substrate_aggregator.FloydWarshall.Calculator.Priced.{float_of}
use substrate_aggregator.FloydWarshall.Calculator.Best.{BestPricePaths, GainfulPrices}
use substrate_aggregator.FloydWarshall.Calculator.Correct.{
  calc_best_paths-cases, calc_best_paths-conversion_error,
}
use substrate_aggregator.Tests.Graphs.{
  Number, power, natural, max_value, number_float, number_mul, number_costs, exact_naturals,
  naturals-IsCompared, all-Fits,
}
use substrate_aggregator.Tests.Instances.{amount, provided}

abbrev pub half : ℕ
half = 5 * 10 ^ 11

abbrev pub quarter : ℕ
quarter = 25 * 10 ^ 10

-- The only fractions that are needed are a half and a quarter.
abbrev pub divide : Number → Number → Number
divide (natural a) b =
    if nat_eq a half then power 1 else (if nat_eq a quarter then power 2 else max_value)
divide _ b = max_value

abbrev pub to_u128 : Number → ℕ
to_u128 (natural a) = a
to_u128 _ = 0

instance abbrev pub number_cast : FloatCast Number
number_cast = record {
  precision = natural (10 ^ 12);
  div = divide;
  of_u128 = natural;
  to_u128 = to_u128;
}

abbrev pub exponent : ℕ → ℕ
exponent units = if nat_eq units half then 1 else 2

abbrev pub Fraction : ℕ → Type 0
Fraction units = (units ≡ half) ⊎ (units ≡ quarter)

pub fractions-IsPriced : IsPriced natural exact_naturals float_of exponent Fraction
fractions-IsPriced = record {
  compared = record {
    cmp_exact = λ a b h k. elim h [
      | inl e ↦ elim k [ inl e' ↦ rw (e, e') refl | inr e' ↦ rw (e, e') refl ]
      | inr e ↦ elim k [ inl e' ↦ rw (e, e') refl | inr e' ↦ rw (e, e') refl ]
    ];
  };
  log_exact = λ x h. elim h [ inl e ↦ rw e refl | inr e ↦ rw e refl ];
  weigh_Exact = λ x h. tt;
}

abbrev offers : List (ProviderPair ℕ × ℕ)
offers = (provided 3 7, half) ∷ (provided 7 9, quarter) ∷ []

calc_best_paths-cases_example :
    ((m : BTreeMap (Pair ℕ) (PricePath ℕ ℕ)) × (calc_best_paths Number offers ≡ give m)
      × BestPricePaths {F = Number} natural exact_naturals exponent offers m)
    ⊎ ((calc_best_paths Number offers ≡ returns (Types.err Types.negative_cycles_error))
        × GainfulPrices {F = Number} natural exact_naturals exponent offers)
calc_best_paths-cases_example =
    calc_best_paths-cases natural exact_naturals exponent Fraction offers fractions-IsPriced
      naturals-IsCompared ((half, refl, inl refl), ((quarter, refl, inr refl), tt))
      (all-Fits (λ n. Unit) (λ n. tt) _ _ _) (λ x. (_, refl))

calc_best_paths-conversion_error_example :
    calc_best_paths Number ((provided 3 7, half) ∷ (provided 7 9, 2 ^ 128) ∷ [])
    ≡ returns (Types.err Types.conversion_error)
calc_best_paths-conversion_error_example =
    calc_best_paths-conversion_error Number _ (provided 7 9) (2 ^ 128) (inr (inl refl)) refl
