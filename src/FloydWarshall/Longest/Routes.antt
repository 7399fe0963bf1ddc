-- ===== src/FloydWarshall/Longest/Routes.antt =====
-- pallets/aggregator/src/best_path_calculator/floyd_warshall/algo.rs: the routes with the
-- smallest sums of computed negated logarithms, which `longest_paths_mult` is to find.
use substrate_aggregator.Prelude.{ℕ, ◌≡◌, some, List, [], ◌∷◌, ◌∈◌, All, true, false, map}
use substrate_aggregator.Ord.{Ord, nat_ord, tuple_ord}
use substrate_aggregator.Collections.BTreeMap
use substrate_aggregator.Collections.BTreeMap.{get-insert}
use substrate_aggregator.Types.{pair_ord}
use substrate_aggregator.FloydWarshall.Float.{Float, FloatMul}
use substrate_aggregator.FloydWarshall.MinPlus.{Costs}
use substrate_aggregator.FloydWarshall.Algo.{Edge, EdgePath, Matrix, at}
use substrate_aggregator.FloydWarshall.Algo.Walk.{IsExact, Chain, embed_edge}
use substrate_aggregator.FloydWarshall.Algo.Unique.{IsCompared}
use substrate_aggregator.FloydWarshall.Longest.{product}

-- Prices stand for themselves and, by `weigh`, for their negated logarithms as the floats compute
-- them: what is exact is the sums of these, and not that they are the logarithms of real numbers.
module _ {F G X : Type 0} ⦃fl : Float F⦄ ⦃fm : FloatMul F⦄ ⦃g : Costs G⦄ ⦃o : Ord G⦄ ⦃ox : Ord X⦄
    (embed : G → F) (exact : IsExact embed) (price : X → F) (weigh : X → G) where
  -- The prices in a range compare as they are, and their computed negated logarithms stand for exact costs.
  pub record IsPriced (Range : X → Type 0) : Type 0 where
    pub compared : IsCompared Range price
    pub log_exact : (x : X) → Range x → fm.neg (fm.log2 (price x)) ≡ embed (weigh x)
    pub weigh_Exact : (x : X) → Range x → exact.Exact (weigh x)

  -- The sum of the computed negated logarithms along some edges.
  abbrev pub weight : List (Edge X) → G
  weight [] = g.zero
  weight (e ∷ es) = g.plus (weigh e.cost) (weight es)

  module _ (kept : List (Edge X)) where
    -- A route along the kept edges.
    pub record IsRoute (i j : ℕ) (es : List (Edge X)) : Type 0 where
      pub chain : Chain i j es
      pub edges : All (λ e. e ∈ kept) es

    -- A path with its original prices and their product.
    pub record IsPricedPath (p : EdgePath F) (es : List (Edge X)) : Type 0 where
      pub edges : p.edges ≡ map (embed_edge price) es
      pub total : p.total_cost ≡ product (map (embed_edge price) es)

    -- Every path of the matrix is a route with its product, and no route with at least one edge has a
    -- smaller sum of computed negated logarithms than the path between its ends, which there is.
    pub record BestRoutes (m : Matrix F) : Type 0 where
      pub routes :
          (i j : ℕ) (p : EdgePath F)
          → BTreeMap.get (at i j) m ≡ some p
          → (es : List (Edge X)) × IsPricedPath p es × IsRoute i j es
      pub best :
          (i j : ℕ) (e : Edge X) (es : List (Edge X))
          → IsRoute i j (e ∷ es)
          → (p : EdgePath F) × (xs : List (Edge X)) × (BTreeMap.get (at i j) m ≡ some p)
            × IsPricedPath p xs
            × IsRoute i j xs
            × (g.lt (weight (e ∷ es)) (weight xs) ≡ false)
      pub no_gain :
          (v : ℕ) (e : Edge X) (es : List (Edge X))
          → IsRoute v v (e ∷ es)
          → g.lt (weight (e ∷ es)) g.zero ≡ false

    -- A closed route whose computed negated logarithms have a sum below zero.
    pub record GainfulCycle : Type 0 where
      pub vertex : ℕ
      pub steps : List (Edge X)
      pub route : IsRoute vertex vertex steps
      pub gains : g.lt (weight steps) g.zero ≡ true
