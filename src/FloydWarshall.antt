-- ===== src/FloydWarshall.antt =====
-- pallets/aggregator/src/best_path_calculator/floyd_warshall: the best path calculator.
pub mod Float
pub mod Algo
pub mod MinPlus
pub mod Longest
pub mod Calculator
