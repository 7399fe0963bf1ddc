-- ===== src/FloydWarshall/Float.antt =====
-- The floating point numbers that pallets/aggregator/src/best_path_calculator/floyd_warshall/algo.rs
-- computes with: a type and the operations of it that the code uses.
use substrate_aggregator.Prelude.{ℕ, Bool, Ordering, Option}

-- What `shortest_paths` uses: 0.0, `f64::MAX`, `+`, `<`, `==` and `partial_cmp`, which has no
-- result if an argument is not a number. `a > b` is `lt b a`.
pub record Float (F : Type 0) : Type 0 where
  pub zero : F
  pub max_value : F
  pub add : F → F → F
  pub lt : F → F → Bool
  pub eq : F → F → Bool
  pub partial_cmp : F → F → Option Ordering

-- What `longest_paths_mult` uses besides: 1.0, `*`, unary `-` and `log2`.
pub record FloatMul (F : Type 0) : Type 0 where
  pub one : F
  pub mul : F → F → F
  pub neg : F → F
  pub log2 : F → F

-- What the calculator uses besides: `PRECISION`, `/`, and `as` between `u128` and `f64`.
pub record FloatCast (F : Type 0) : Type 0 where
  pub precision : F
  pub div : F → F → F
  pub of_u128 : ℕ → F
  pub to_u128 : F → ℕ
