-- ===== src/FloydWarshall/Algo/Unique.antt =====
-- pallets/aggregator/src/best_path_calculator/floyd_warshall/algo.rs: which of several edges between
-- the same vertices `unique_cheapest_edges` keeps.
use Prim.Native.Nat.Ordering.{eq}
use substrate_aggregator.Prelude.{
  ◌≡◌, ◌≢◌, refl, sym, ap, subst, inl, inr, some, List, [], ◌∷◌, map, arith, All, All_of_mem, ◌∈◌,
  Option-cases, Ordering, mem-map, mem-map_inv,
}
use substrate_aggregator.Ord.{Ord, nat_ord}
use substrate_aggregator.Collections.BTreeMap
use substrate_aggregator.Collections.BTreeMap.{BTreeMap, get-insert}
use substrate_aggregator.Collections.BTreeMap.Entries.{
  Distinct, mem_of_get, get_of_mem, Ascends-Distinct, map_values, get-map_values, insert-map_values,
  map-map_values,
}
use substrate_aggregator.Types.{pair_ord}
use substrate_aggregator.FloydWarshall.Float.{Float}
use substrate_aggregator.FloydWarshall.Algo.{
  Edge, VertexPair, ok, merge_edge, merge_edges, unique_cheapest_edges,
}
use substrate_aggregator.FloydWarshall.Algo.Walk.{embed_edge}
use substrate_aggregator.FloydWarshall.Algo.Picks.{
  picks-Holds, pick, picks, chosen, NoWorse, Holds, pick-get,
}

-- Floats that stand for ordered values: `partial_cmp` is their order, at least within a range.
pub record IsCompared {F X : Type 0} ⦃fl : Float F⦄ ⦃o : Ord X⦄ (Range : X → Type 0) (embed : X → F)
    : Type 0 where
  pub cmp_exact :
      (a b : X) → Range a → Range b → fl.partial_cmp (embed a) (embed b) ≡ some (o.cmp a b)

module _ {F X : Type 0} ⦃fl : Float F⦄ ⦃o : Ord X⦄ (ordering : Ordering) (Range : X → Type 0)
    (embed : X → F) (compared : IsCompared Range embed) where
  merge_edge-pick :
      (m : BTreeMap VertexPair (Edge X)) (e : Edge X)
      → Range e.cost
      → ((old : Edge X) → BTreeMap.get e.pair m ≡ some old → Range old.cost)
      → merge_edge ordering (map_values (embed_edge embed) m) (embed_edge embed e)
        ≡ ok (map_values (embed_edge embed) (pick ordering m e))
  unfolding merge_edge
  merge_edge-pick m e small smalls =
      let looked = get-map_values (embed_edge embed) e.pair m in
      let put_in = insert-map_values (embed_edge embed) e.pair e m in
      elim (Option-cases (BTreeMap.get e.pair m)) [
        | inl absent ↦ ground (arith, looked, put_in)
        | inr (old, present) ↦
            ground
              (arith, looked, put_in, compared.cmp_exact old.cost e.cost (smalls old present) small)
      ]

  -- On costs that stand for ordered values the function never panics, and does what `picks` does.
  merge_edges-picks :
      (es : List (Edge X)) (m : BTreeMap VertexPair (Edge X))
      → All (λ e. Range e.cost) es
      → ((k : VertexPair) (old : Edge X) → BTreeMap.get k m ≡ some old → Range old.cost)
      → merge_edges ordering (map (embed_edge embed) es) (map_values (embed_edge embed) m)
        ≡ ok (map_values (embed_edge embed) (picks ordering es m))
  unfolding merge_edges picks
  merge_edges-picks [] m smalls held = refl
  merge_edges-picks (e ∷ es) m (small, smalls) held = rw (merge_edge-pick m e small (held e.pair)) (
      merge_edges-picks es (pick ordering m e) smalls λ k old h. elim (pick-get ordering m e k h) [
        | inl (same, at_k) ↦ rw same small
        | inr before ↦ held k old before
      ])

  pub unique_cheapest_edges-chosen :
      (es : List (Edge X))
      → All (λ e. Range e.cost) es
      → unique_cheapest_edges (map (embed_edge embed) es) ordering
        ≡ ok (map (embed_edge embed) (chosen ordering es))
  unfolding unique_cheapest_edges BTreeMap.get
  unique_cheapest_edges-chosen es smalls =
      rw (merge_edges-picks es [] smalls (λ k old h. absurd (cc)))
        (ap ok (map-map_values (embed_edge embed) (picks ordering es [])))

module _ {X : Type 0} ⦃o : Ord X⦄ (ordering : Ordering) (strict : ordering ≢ eq)
    (es : List (Edge X)) where
  picks_all-Holds : Holds ordering es (picks ordering es [])
  unfolding BTreeMap.get
  picks_all-Holds =
      picks-Holds ordering strict [] es []
        (record { ascends = tt; found = λ k e h. absurd (cc); covered = λ e h. absurd h })

  -- An edge that is kept stands in the map at its own pair.
  kept-get :
      (e : Edge X) → e ∈ chosen ordering es → BTreeMap.get e.pair (picks ordering es []) ≡ some e
  kept-get e m =
      let ((k, x), entry, same) =
        mem-map_inv (λ (y : VertexPair × Edge X). y.1) e (picks ordering es []) m in
      let held = get_of_mem k x (picks ordering es []) picks_all-Holds.ascends entry in
      let key = (picks_all-Holds.found k x held).0 in
      subst (λ y. BTreeMap.get y.pair (picks ordering es []) ≡ some y) same
        (subst (λ j. BTreeMap.get j (picks ordering es []) ≡ some x) (sym key) held)

  pub chosen-mem : (e : Edge X) → e ∈ chosen ordering es → e ∈ es
  chosen-mem e m = (picks_all-Holds.found e.pair e (kept-get e m)).1

  pub chosen-covers :
      (e : Edge X)
      → e ∈ es
      → (kept : Edge X) × (kept ∈ chosen ordering es) × NoWorse ordering kept e
  chosen-covers e m =
      let (kept, held, fine) = picks_all-Holds.covered e m in
      (
        kept,
        mem-map (λ (y : VertexPair × Edge X). y.1) (e.pair, kept) (picks ordering es [])
            (mem_of_get e.pair (picks ordering es []) held),
        fine,
      )

  pub chosen-Distinct : Distinct (λ e. e.pair) (chosen ordering es)
  chosen-Distinct =
      Ascends-Distinct (λ e. e.pair) (picks ordering es []) picks_all-Holds.ascends
        (All_of_mem (λ (y : VertexPair × Edge X). y.1.pair ≡ y.0) (picks ordering es [])
          λ (k, x) entry.
            (picks_all-Holds.found k x
              (get_of_mem k x (picks ordering es []) picks_all-Holds.ascends entry)).0)

-- On costs in the range the function does not panic, whichever of `Less` and `Greater` it is given.
-- It keeps one edge for each pair of vertices that an edge joins; each edge that it keeps is one of
-- the given edges; and no edge between the same vertices would replace it: the cost of the kept edge
-- does not compare to another's as the argument says. So `Greater` keeps a cheapest edge of each
-- pair, and `Less` a dearest one.
pub unique_cheapest_edges-keeps :
    {F X : Type 0} ⦃fl : Float F⦄ ⦃o : Ord X⦄ (ordering : Ordering) (Range : X → Type 0)
    (embed : X → F) (es : List (Edge X))
    → IsCompared Range embed
    → ordering ≢ eq
    → All (λ e. Range e.cost) es
    → (kept : List (Edge X)) × (unique_cheapest_edges (map (embed_edge embed) es) ordering
        ≡ ok (map (embed_edge embed) kept))
      × Distinct (λ e. e.pair) kept
      × ((e : Edge X) → e ∈ kept → e ∈ es)
      × ((e : Edge X) → e ∈ es → (k : Edge X) × (k ∈ kept) × NoWorse ordering k e)
unique_cheapest_edges-keeps ordering Range embed es compared strict smalls = (
  chosen ordering es,
  unique_cheapest_edges-chosen ordering Range embed compared es smalls,
  chosen-Distinct ordering strict es,
  chosen-mem ordering strict es,
  chosen-covers ordering strict es,
)
