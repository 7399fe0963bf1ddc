-- ===== src/FloydWarshall/Longest/ReadBack.antt =====
-- pallets/aggregator/src/best_path_calculator/floyd_warshall/algo.rs: the map of the original weights
-- that `longest_paths_mult` reads, and the edges that are looked up in it.
use substrate_aggregator.Prelude.{
  ℕ, ◌≡◌, ◌≢◌, refl, sym, ap, ◌∙◌, subst, inl, inr, some, List, [], ◌∷◌, arith, ◌∈◌, All, All-mem,
  map,
}
use substrate_aggregator.Ord.{nat_ord, tuple_ord, ==_iff, ==_refl}
use substrate_aggregator.Collections.BTreeMap
use substrate_aggregator.Collections.BTreeMap.{get-insert}
use substrate_aggregator.Collections.BTreeMap.Entries.{Distinct}
use substrate_aggregator.Types.{pair_ord}
use substrate_aggregator.FloydWarshall.Algo.{VertexPair, Edge}
use substrate_aggregator.FloydWarshall.Algo.Walk.{Chain, embed_edge}
use substrate_aggregator.FloydWarshall.Longest.{Weights, collect_weights}

-- The weights of edges with distinct ends can all be read back.
module _ {F : Type 0} where
  get-collect_weights_ne :
      (es : List (Edge F)) (k : VertexPair) (n : ℕ) (m : Weights F)
      → All (λ x. x.pair ≢ k) es
      → BTreeMap.get (k, n) (collect_weights es m) ≡ BTreeMap.get (k, n) m
  unfolding collect_weights
  get-collect_weights_ne [] k n m h = refl
  get-collect_weights_ne (e ∷ es) k n m (h, hs) =
      get-collect_weights_ne es k n _ hs
      ∙ (get-insert (e.pair, e.provider) (k, n) e.cost m
          ∙ ground (arith, ==_iff {K = VertexPair × ℕ} (e.pair, e.provider) (k, n), h))

  pub get-collect_weights :
      (es : List (Edge F)) (e : Edge F) (m : Weights F)
      → Distinct (λ x. x.pair) es
      → e ∈ es
      → BTreeMap.get (e.pair, e.provider) (collect_weights es m) ≡ some e.cost
  unfolding collect_weights
  get-collect_weights [] e m d h = absurd h
  get-collect_weights (x ∷ es) e m d (inr h) = get-collect_weights es e _ d.1 h
  get-collect_weights (x ∷ es) e m d (inl h) =
      subst
        (λ y.
          BTreeMap.get (y.pair, y.provider)
            (collect_weights es (BTreeMap.insert (x.pair, x.provider) x.cost m))
          ≡ some y.cost)
        h
        (get-collect_weights_ne es x.pair x.provider _ d.0
          ∙ (get-insert (x.pair, x.provider) (x.pair, x.provider) x.cost m
              ∙ rw (==_refl {K = VertexPair × ℕ} (x.pair, x.provider))))

-- Edges with distinct ends are told apart by their ends.
pub same_of_pair :
    {X : Type 0} (es : List (Edge X)) (e e' : Edge X)
    → Distinct (λ x. x.pair) es
    → e ∈ es
    → e' ∈ es
    → e.pair ≡ e'.pair
    → e ≡ e'
same_of_pair [] e e' d m m' h = absurd m
same_of_pair (x ∷ es) e e' d (inl a) (inl b) h = sym a ∙ b
same_of_pair (x ∷ es) e e' d (inl a) (inr b) h =
    absurd (All-mem (λ y. y.pair ≢ x.pair) e' es d.0 b (sym h ∙ ap (λ y. y.pair) (sym a)))
same_of_pair (x ∷ es) e e' d (inr a) (inl b) h =
    absurd (All-mem (λ y. y.pair ≢ x.pair) e es d.0 a (h ∙ ap (λ y. y.pair) (sym b)))
same_of_pair (x ∷ es) e e' d (inr a) (inr b) h = same_of_pair es e e' d.1 a b h

module _ {X Y : Type 0} (f : X → Y) where
  pub Chain-map : (i j : ℕ) (xs : List (Edge X)) → Chain i j xs → Chain i j (map (embed_edge f) xs)
  Chain-map i j [] h = h
  Chain-map i j (x ∷ xs) h = (h.0, Chain-map x.pair.target j xs h.1)

  pub Chain-map_inv :
      (i j : ℕ) (xs : List (Edge X)) → Chain i j (map (embed_edge f) xs) → Chain i j xs
  Chain-map_inv i j [] h = h
  Chain-map_inv i j (x ∷ xs) h = (h.0, Chain-map_inv x.pair.target j xs h.1)
