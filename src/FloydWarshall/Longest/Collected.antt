-- ===== src/FloydWarshall/Longest/Collected.antt =====
-- pallets/aggregator/src/best_path_calculator/floyd_warshall/algo.rs: the maps that
-- `longest_paths_mult` reads and collects.
use Prim.Native.Nat.Ordering.{lt}
use substrate_aggregator.Prelude.{
  ◌≡◌, refl, ◌∙◌, subst, inl, inr, none, some, [], ◌∷◌, arith, All, Bool-cases,
}
use mathlib.Core.Option.{some-injective}
use substrate_aggregator.Ord.{nat_ord, ◌==◌, ==_iff, ==_refl}
use substrate_aggregator.Collections.BTreeMap
use substrate_aggregator.Collections.BTreeMap.{get-insert}
use substrate_aggregator.Collections.BTreeMap.Entries.{Ascends}
use substrate_aggregator.Types.{pair_ord}
use substrate_aggregator.FloydWarshall.Float.{FloatMul}
use substrate_aggregator.FloydWarshall.Algo.{VertexPair, EdgePath, Matrix, ok}
use substrate_aggregator.FloydWarshall.Longest.{Weights, restore_path, restore_paths}

module _ {F : Type 0} ⦃fm : FloatMul F⦄ (weights : Weights F) where
  -- What the collected map holds.
  pub record Collects (paths collected result : Matrix F) : Type 0 where
    pub kept :
        (k : VertexPair)
        → BTreeMap.get k paths ≡ none
        → BTreeMap.get k result ≡ BTreeMap.get k collected
    pub restored :
        (k : VertexPair) (p : EdgePath F)
        → BTreeMap.get k paths ≡ some p
        → (q : EdgePath F) × (restore_path weights p ≡ ok q) × (BTreeMap.get k result ≡ some q)

  absent_above :
      (k : VertexPair) (m : Matrix F)
      → All (λ e. pair_ord.cmp k e.0 ≡ lt) m
      → BTreeMap.get k m ≡ none
  unfolding BTreeMap.get
  absent_above k [] h = refl
  absent_above k ((j, p) ∷ m) (h, hs) =
      ground (arith, absent_above k m hs, ==_iff j k, pair_ord.cmp_refl k)

  -- If every path can be restored, the loop collects the restored paths.
  pub restore_paths-Collects :
      (paths collected : Matrix F)
      → Ascends paths
      → All (λ e. (q : EdgePath F) × (restore_path weights e.1 ≡ ok q)) paths
      → (result : Matrix F) × (restore_paths weights paths collected ≡ ok result)
        × Collects paths collected result
  unfolding restore_paths BTreeMap.get
  restore_paths-Collects [] collected asc all =
      (collected, refl, record { kept = λ k h. refl; restored = λ k p h. absurd (cc) })
  restore_paths-Collects ((j, p) ∷ paths) collected (above, rest) ((q, e), all) =
      let (result, done, c) =
        restore_paths-Collects paths (BTreeMap.insert j q collected) rest all in
      (
        result,
        rw e done,
        record {
          kept = λ k h. elim (Bool-cases (j == k)) [
            | inl same ↦ absurd (ground arith)
            | inr other ↦ ground (arith, c.kept k (ground arith), get-insert j k q collected)
          ];
          restored = λ k x h. elim (Bool-cases (j == k)) [
            | inl same ↦
                let at_j : j ≡ k = (==_iff j k).0 same in
                let here : some p ≡ some x = ground arith in
                (
                  q,
                  subst (λ y. restore_path weights y ≡ ok q) (some-injective _ _ here) e,
                  subst (λ i. BTreeMap.get i result ≡ some q) at_j
                      (c.kept j (absent_above j paths above)
                        ∙ (get-insert j j q collected ∙ rw (==_refl j))),
                )
            | inr other ↦ c.restored k x (ground arith)
          ];
        },
      )
