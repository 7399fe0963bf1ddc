-- ===== src/Tests/Graphs.antt =====
-- Small graphs. The numbers are powers of two that are at most one, natural numbers and their negatives,
-- and the largest number; so the negated logarithm of 2^-n is n.
use native.Mathlib.Nat.{add_assoc}
use Prim.Native.Nat.Ordering.{lt, gt}
use substrate_aggregator.Prelude.{
  ℕ, ◌+◌, ◌/◌, ◌^◌, ◌≡◌, refl, ◌⊎◌, Bool, true, false, ltb, nat_eq, compare, Option, none, some,
  List, [], ◌∷◌, map, arith, ◌∈◌, Ordering,
}
use substrate_aggregator.Ord.{Ord, Lawful, nat_ord, tuple_ord}
use substrate_aggregator.Types.{pair_ord}
use substrate_aggregator.Collections.BTreeMap.Entries.{Distinct}
use substrate_aggregator.FloydWarshall.Float.{Float, FloatMul}
use substrate_aggregator.FloydWarshall.MinPlus.{Costs, Table, plus, Within, RowFits, RowsFit, Fits}
use substrate_aggregator.FloydWarshall.Algo.{
  Edge, Matrix, at, ok, err, negative_cycles_error, unique_cheapest_edges,
  floyd_warshall_shortest_paths, shortest_paths,
}
use substrate_aggregator.FloydWarshall.Algo.Walk.{IsExact, embed_edge}
use substrate_aggregator.FloydWarshall.Algo.Correct.{
  IsGraph, AnswersFor, NegativeCycle, floyd_warshall-cases,
}
use substrate_aggregator.FloydWarshall.Algo.Unique.{IsCompared, unique_cheapest_edges-keeps}
use substrate_aggregator.FloydWarshall.Algo.Picks.{NoWorse, chosen}
use substrate_aggregator.FloydWarshall.Algo.Shortest.{shortest_paths-cases}
use substrate_aggregator.FloydWarshall.Longest.{longest_paths_mult}
use substrate_aggregator.FloydWarshall.Longest.Routes.{IsPriced, BestRoutes, GainfulCycle}
use substrate_aggregator.FloydWarshall.Longest.Best.{longest_paths_mult-cases}

-- `power n` is 2^-n, and `max_value` is larger than all others.
pub data Number : Type 0 where
  power : ℕ → Number
  natural : ℕ → Number
  negative : ℕ → Number
  max_value : Number

abbrev add : Number → Number → Number
add (natural a) (natural b) = natural (a + b)
add _ _ = max_value

abbrev less : Number → Number → Bool
less (natural a) (natural b) = ltb a b
less (natural a) max_value = true
less _ _ = false

abbrev same : Number → Number → Bool
same (natural a) (natural b) = nat_eq a b
same max_value max_value = true
same _ _ = false

abbrev partial_compare : Number → Number → Option Ordering
partial_compare (natural a) (natural b) = some (compare a b)
partial_compare (power a) (power b) = some (compare b a)
partial_compare _ _ = none

abbrev multiply : Number → Number → Number
multiply (power a) (power b) = power (a + b)
multiply (power a) (natural b) = natural (b / 2 ^ a)
multiply _ _ = max_value

abbrev negate : Number → Number
negate (natural a) = negative a
negate (negative a) = natural a
negate x = x

abbrev logarithm : Number → Number
logarithm (power a) = negative a
logarithm x = x

instance abbrev pub number_float : Float Number
number_float = record {
  zero = natural 0;
  max_value = max_value;
  add = add;
  lt = less;
  eq = same;
  partial_cmp = partial_compare;
}

instance abbrev pub number_mul : FloatMul Number
number_mul = record { one = power 0; mul = multiply; neg = negate; log2 = logarithm }

pub sums_zero : (a : ℕ) → (0 + a ≡ a) × (a + 0 ≡ a)
sums_zero a = (omega arith, omega arith)

pub le_of_ltb : (a b : ℕ) → ltb a b ≡ true → ltb b a ≡ false
le_of_ltb a b h = ground arith

pub ltb_irrefl : (a : ℕ) → ltb a a ≡ false
ltb_irrefl a = ground arith

pub not_ltb_trans : (a b c : ℕ) → ltb b a ≡ false → ltb c b ≡ false → ltb c a ≡ false
not_ltb_trans a b c h k = ground arith

pub not_ltb_add : (a b c d : ℕ) → ltb b a ≡ false → ltb d c ≡ false → ltb (b + d) (a + c) ≡ false
not_ltb_add a b c d h k = ground arith

instance abbrev pub number_costs : Costs ℕ
number_costs = record {
  zero = 0;
  plus = λ a b. a + b;
  lt = ltb;
  plus_assoc = λ a b c. add_assoc a b c;
  zero-plus = λ a. (sums_zero a).0;
  plus-zero = λ a. (sums_zero a).1;
  le_of_lt = le_of_ltb;
  le_refl = ltb_irrefl;
  le_trans = not_ltb_trans;
  plus_mono = not_ltb_add;
}

abbrev pub exact_naturals : IsExact natural
exact_naturals = record {
  Exact = λ n. Unit;
  zero_Exact = tt;
  zero_exact = refl;
  add_exact = λ a b h k l. refl;
  lt_exact = λ a b h k. refl;
  ne_max = λ a h. refl;
  lt_max = λ a h. refl;
  add-max_left = λ a h. refl;
  add-max_right = λ a h. refl;
  add_max-max = λ a h. refl;
  max_max-max = refl;
}

pub naturals-IsCompared : IsCompared (λ n. Unit {0}) natural
naturals-IsCompared = record { cmp_exact = λ a b h k. refl }

-- A price that is a power of two, by the exponent of its inverse.
pub data Price : Type 0 where
  two_to_minus : ℕ → Price

abbrev cmp_price : Price → Price → Ordering
cmp_price (two_to_minus a) (two_to_minus b) = compare b a

price-Lawful : Lawful cmp_price
price-Lawful = ground arith

instance abbrev price_ord : Ord Price
price_ord = record { cmp = cmp_price; lawful = price-Lawful }

abbrev exponent : Price → ℕ
exponent (two_to_minus n) = n

abbrev number_of : Price → Number
number_of price = power (exponent price)

prices-IsPriced : IsPriced natural exact_naturals number_of exponent (λ price. Unit {0})
prices-IsPriced = record {
  compared = record { cmp_exact = compared };
  log_exact = λ x h. refl;
  weigh_Exact = λ x h. tt;
}
  where
    compared :
        (a b : Price)
        → Unit {0}
        → Unit {0}
        → partial_compare (number_of a) (number_of b) ≡ some (cmp_price a b)
    compared (two_to_minus a) (two_to_minus b) h k = refl

-- Every cost is in the range, so every sum is.
module _ (P : ℕ → Type 0) (all : (x : ℕ) → P x) where
  all-Within : (x : Option ℕ) → Within P x
  all-Within none = tt
  all-Within (some x) = all x

  all-RowFits : (k i : ℕ) (js : List ℕ) (c : Table ℕ) → RowFits P k i js c
  unfolding RowFits
  all-RowFits k i [] c = tt
  all-RowFits k i (j ∷ js) c = (all-Within (plus (c i k) (c k j)), all-RowFits k i js _)

  all-RowsFit : (k : ℕ) (is js : List ℕ) (c : Table ℕ) → RowsFit P k is js c
  unfolding RowsFit
  all-RowsFit k [] js c = tt
  all-RowsFit k (i ∷ is) js c = (all-RowFits k i js c, all-RowsFit k is js _)

  pub all-Fits : (ks vertices : List ℕ) (c : Table ℕ) → Fits P ks vertices c
  unfolding Fits
  all-Fits [] vertices c = tt
  all-Fits (k ∷ ks) vertices c = (all-RowsFit k vertices vertices c, all-Fits ks vertices _)

-- From 0 to 1 by two providers, and from 1 to 2.
abbrev edge : {F : Type 0} → ℕ → ℕ → ℕ → F → Edge F
edge i j provider cost = record { pair = at i j; provider = provider; cost = cost }

abbrev priced : List (Edge Price)
priced =
    edge 0 1 0 (two_to_minus 1) ∷ edge 0 1 1 (two_to_minus 2) ∷ edge 1 2 0 (two_to_minus 1) ∷ []

abbrev roads : List (Edge ℕ)
roads = edge 0 1 0 4 ∷ edge 1 2 0 3 ∷ edge 0 2 1 9 ∷ []

roads-IsGraph : IsGraph natural exact_naturals roads
roads-IsGraph = record {
  one_per_pair = ground arith;
  edge_costs = (tt, (tt, (tt, tt)));
  sums = all-Fits (λ n. Unit) (λ n. tt) _ _ _;
}

floyd_warshall-cases_example :
    ((m : Matrix Number) × (floyd_warshall_shortest_paths (map (embed_edge natural) roads) ≡ ok m)
      × AnswersFor natural exact_naturals roads m)
    ⊎ ((floyd_warshall_shortest_paths (map (embed_edge natural) roads) ≡ err negative_cycles_error)
        × NegativeCycle natural exact_naturals roads)
floyd_warshall-cases_example = floyd_warshall-cases natural exact_naturals roads roads-IsGraph

unique_cheapest_edges-keeps_example :
    (kept : List (Edge Price)) × (unique_cheapest_edges (map (embed_edge number_of) priced) gt
      ≡ ok (map (embed_edge number_of) kept))
    × Distinct (λ e. e.pair) kept
    × ((e : Edge Price) → e ∈ kept → e ∈ priced)
    × ((e : Edge Price) → e ∈ priced → (k : Edge Price) × (k ∈ kept) × NoWorse gt k e)
unique_cheapest_edges-keeps_example =
    unique_cheapest_edges-keeps gt (λ price. Unit) number_of priced prices-IsPriced.compared
      (λ h. absurd (cc)) (tt, (tt, (tt, tt)))

shortest_paths-cases_example :
    ((m : Matrix Number) × (shortest_paths (map (embed_edge natural) roads) ≡ ok m)
      × AnswersFor natural exact_naturals (chosen lt roads) m)
    ⊎ ((shortest_paths (map (embed_edge natural) roads) ≡ err negative_cycles_error)
        × NegativeCycle natural exact_naturals (chosen lt roads))
shortest_paths-cases_example =
    shortest_paths-cases natural exact_naturals roads naturals-IsCompared (tt, (tt, (tt, tt)))
      (all-Fits (λ n. Unit) (λ n. tt) _ _ _)

longest_paths_mult-cases_example :
    ((m : Matrix Number) × (longest_paths_mult (map (embed_edge number_of) priced) ≡ ok m)
      × BestRoutes natural exact_naturals number_of exponent (chosen gt priced) m)
    ⊎ ((longest_paths_mult (map (embed_edge number_of) priced) ≡ err negative_cycles_error)
        × GainfulCycle natural exact_naturals number_of exponent (chosen gt priced))
longest_paths_mult-cases_example =
    longest_paths_mult-cases natural exact_naturals number_of exponent (λ price. Unit) priced
      prices-IsPriced naturals-IsCompared (tt, (tt, (tt, tt)))
      (all-Fits (λ n. Unit) (λ n. tt) _ _ _)
