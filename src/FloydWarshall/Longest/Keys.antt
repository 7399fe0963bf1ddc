-- ===== src/FloydWarshall/Longest/Keys.antt =====
-- pallets/aggregator/src/best_path_calculator/floyd_warshall/algo.rs: the keys of the map that
-- `longest_paths_mult` returns.
use Prim.Native.Nat.Ordering.{gt}
use substrate_aggregator.Prelude.{ℕ, ◌≡◌, subst, List, [], ◌∷◌, All}
use substrate_aggregator.Types.{pair_ord}
use substrate_aggregator.Ord.{nat_ord}
use substrate_aggregator.FloydWarshall.Float.{Float, FloatMul}
use substrate_aggregator.FloydWarshall.Algo.{
  Edge, Matrix, ok, unique_cheapest_edges, shortest_paths,
}
use substrate_aggregator.FloydWarshall.Algo.Keys.{
  ok_of_bind, ok-injective, Both, Ends, Keys, insert-Keys, unique_cheapest_edges-Ends,
  shortest_paths-Keys,
}
use substrate_aggregator.FloydWarshall.Longest.{
  Weights, with_logs, collect_weights, restore_path, restore_paths, longest_paths_mult,
}

module _ (P : ℕ → Type 0) {F : Type 0} ⦃fm : FloatMul F⦄ where
  restore_paths-Keys :
      (weights : Weights F) (paths collected : Matrix F) {m : Matrix F}
      → restore_paths weights paths collected ≡ ok m
      → All (λ e. Both P e.0) paths
      → Keys P collected
      → Keys P m
  unfolding restore_paths
  restore_paths-Keys weights [] collected h all keys = subst (Keys P) (ok-injective h) keys
  restore_paths-Keys weights ((pair, path) ∷ paths) collected h (both, all) keys =
      let (restored, _, rest) = ok_of_bind (restore_path weights path) _ h in
      restore_paths-Keys weights paths _ rest all (insert-Keys P pair restored collected both keys)

  with_logs-Ends : (es : List (Edge F)) → Ends P es → Ends P (with_logs es)
  with_logs-Ends [] h = tt
  with_logs-Ends (e ∷ es) (h, hs) = (h, with_logs-Ends es hs)

  -- They ascend, and join vertices that edges join.
  pub longest_paths_mult-Keys :
      ⦃fl : Float F⦄ (es : List (Edge F)) {m : Matrix F}
      → longest_paths_mult es ≡ ok m
      → Ends P es
      → Keys P m
  unfolding longest_paths_mult
  longest_paths_mult-Keys es h ends =
      let (unique, e1, h1) = ok_of_bind (unique_cheapest_edges es gt) _ h in
      let (paths, e2, h2) = ok_of_bind (shortest_paths (with_logs unique)) _ h1 in
      let keys =
        shortest_paths-Keys P (with_logs unique) e2
          (with_logs-Ends unique (unique_cheapest_edges-Ends P es gt e1 ends)) in
      restore_paths-Keys (collect_weights unique []) paths [] h2 keys.1 (tt, tt)
