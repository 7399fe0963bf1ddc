-- ===== src/FloydWarshall/Algo/Picks.antt =====
-- pallets/aggregator/src/best_path_calculator/floyd_warshall/algo.rs: the edges that the loop of
-- `unique_cheapest_edges` keeps, on exact costs.
use Prim.Native.Nat.Ordering.{eq}
use mathlib.Core.Bool.{false≢true}
use mathlib.Core.List.{append-nil, append_assoc}
use substrate_aggregator.Prelude.{
  ◌≡◌, ◌≢◌, refl, sym, ◌∙◌, subst, ◌⊎◌, inl, inr, none, some, List, [], ◌∷◌, ◌++◌, map, arith, ◌∈◌,
  Bool-cases, Option-cases, if◌then◌else◌, Ordering, true, ◌↔◌, mem-append_left, mem-append_right,
  mem-append_split,
}
use substrate_aggregator.Ord.{Ord, ◌==◌, ==_iff, ==_refl, nat_ord}
use substrate_aggregator.Collections.BTreeMap
use substrate_aggregator.Collections.BTreeMap.{BTreeMap, get-insert}
use substrate_aggregator.Collections.BTreeMap.Entries.{Ascends, insert-Ascends}
use substrate_aggregator.Types.{pair_ord}
use substrate_aggregator.FloydWarshall.Algo.{Edge, VertexPair, same_ordering}

same_ordering_iff : (c d : Ordering) → (same_ordering c d ≡ true) ↔ (c ≡ d)
same_ordering_iff c d = (λ h. ground arith, λ h. ground arith)

-- The function on exact costs.
module _ {X : Type 0} ⦃o : Ord X⦄ (ordering : Ordering) where
  abbrev pub pick : BTreeMap VertexPair (Edge X) → Edge X → BTreeMap VertexPair (Edge X)
  pick m e = elim (BTreeMap.get e.pair m) [
    | none ↦ BTreeMap.insert e.pair e m
    | some old ↦
        if same_ordering (o.cmp old.cost e.cost) ordering then BTreeMap.insert e.pair e m else m
  ]

  unfoldable pub picks : List (Edge X) → BTreeMap VertexPair (Edge X) → BTreeMap VertexPair (Edge X)
  picks [] m = m
  picks (e ∷ es) m = picks es (pick m e)

  abbrev pub chosen : List (Edge X) → List (Edge X)
  chosen es = map (λ e. e.1) (picks es [])

  -- An edge with which the function does not replace another.
  abbrev pub NoWorse : Edge X → Edge X → Type 0
  NoWorse kept e = (kept.pair ≡ e.pair) × (o.cmp kept.cost e.cost ≢ ordering)

  -- What the map holds after some edges.
  pub record Holds (seen : List (Edge X)) (m : BTreeMap VertexPair (Edge X)) : Type 0 where
    pub ascends : Ascends m
    pub found :
        (k : VertexPair) (e : Edge X) → BTreeMap.get k m ≡ some e → (e.pair ≡ k) × (e ∈ seen)
    pub covered :
        (e : Edge X)
        → e ∈ seen
        → (kept : Edge X) × (BTreeMap.get e.pair m ≡ some kept) × NoWorse kept e

  -- After one more edge the map has that edge at a key, or what it had.
  pub pick-get :
      (m : BTreeMap VertexPair (Edge X)) (e : Edge X) (k : VertexPair) {x : Edge X}
      → BTreeMap.get k (pick m e) ≡ some x
      → ((x ≡ e) × (e.pair ≡ k)) ⊎ (BTreeMap.get k m ≡ some x)
  pick-get m e k h = ground (arith, get-insert e.pair k e m, ==_iff e.pair k)

  pick-Ascends : (m : BTreeMap VertexPair (Edge X)) (e : Edge X) → Ascends m → Ascends (pick m e)
  pick-Ascends m e h = ground (arith, insert-Ascends e.pair e m h)

  module _ (strict : ordering ≢ eq) where
    NoWorse-refl : (e : Edge X) → NoWorse e e
    NoWorse-refl e = (refl, λ h. strict (sym h ∙ o.cmp_refl e.cost))

    -- What replaces an edge is no worse than what that edge was no worse than.
    NoWorse-replace :
        (old e other : Edge X)
        → NoWorse old other
        → e.pair ≡ other.pair
        → o.cmp old.cost e.cost ≡ ordering
        → NoWorse e other
    NoWorse-replace old e other kept same replaced = (
      same,
      λ h. ground (
        arith,
        o.cmp_swap old.cost e.cost,
        o.cmp_swap e.cost other.cost,
        o.cmp_swap old.cost other.cost,
        o.lt_trans old.cost e.cost other.cost,
        o.lt_trans other.cost e.cost old.cost,
      ),
    )

    pick-covered :
        (m : BTreeMap VertexPair (Edge X)) (e other kept : Edge X)
        → BTreeMap.get other.pair m ≡ some kept
        → NoWorse kept other
        → (kept' : Edge X) × (BTreeMap.get other.pair (pick m e) ≡ some kept') × NoWorse kept' other
    pick-covered m e other kept held fine = elim (Bool-cases (e.pair == other.pair)) [
      | inr apart ↦ (kept, ground (arith, get-insert e.pair other.pair e m), fine)
      | inl same ↦
          let eq : e.pair ≡ other.pair = (==_iff e.pair other.pair).0 same in
          let held' : BTreeMap.get e.pair m ≡ some kept = rw eq held in
          let written = get-insert e.pair other.pair e m in
          elim (Bool-cases (same_ordering (o.cmp kept.cost e.cost) ordering)) [
            | inl replaced ↦ (
              e,
              ground (arith, written),
              NoWorse-replace kept e other fine eq ((same_ordering_iff _ _).0 replaced),
            )
            | inr stays ↦ (kept, ground (arith, written), fine)
          ]
    ]

    pick-found :
        (m : BTreeMap VertexPair (Edge X)) (e : Edge X)
        → ((k : VertexPair) (x : Edge X) → BTreeMap.get k m ≡ some x → x.pair ≡ k)
        → (kept : Edge X) × (BTreeMap.get e.pair (pick m e) ≡ some kept) × NoWorse kept e
    pick-found m e keys =
        let written = get-insert e.pair e.pair e m in
        let here = ==_refl e.pair in
        elim (Option-cases (BTreeMap.get e.pair m)) [
          | inl absent ↦ (e, ground (arith, written, here), NoWorse-refl e)
          | inr (old, present) ↦
              elim (Bool-cases (same_ordering (o.cmp old.cost e.cost) ordering)) [
                | inl replaced ↦ (e, ground (arith, written, here), NoWorse-refl e)
                | inr stays ↦ (
                  old,
                  ground (arith, written, here),
                  (
                    keys e.pair old present,
                    λ h. false≢true (sym stays ∙ (same_ordering_iff _ _).1 h),
                  ),
                )
              ]
        ]

    pick-Holds :
        (seen : List (Edge X)) (m : BTreeMap VertexPair (Edge X)) (e : Edge X)
        → Holds seen m
        → Holds (seen ++ e ∷ []) (pick m e)
    pick-Holds seen m e h = record {
      ascends = pick-Ascends m e h.ascends;
      found = λ k x held. elim (pick-get m e k held) [
        | inl (same, at_k) ↦ (rw same at_k, mem-append_right x seen (e ∷ []) (inl (sym same)))
        | inr before ↦
            let (key, old) = h.found k x before in (key, mem-append_left x seen (e ∷ []) old)
      ];
      covered = λ x m_x. elim (mem-append_split x seen (e ∷ []) m_x) [
        | inl old ↦ let (kept, held, fine) = h.covered x old in pick-covered m e x kept held fine
        | inr new ↦ elim new [
          | inl same ↦
              subst
                (λ y.
                  (kept : Edge X) × (BTreeMap.get y.pair (pick m e) ≡ some kept) × NoWorse kept y)
                same (pick-found m e λ k y held. (h.found k y held).0)
          | inr impossible ↦ absurd impossible
        ]
      ];
    }

    pub picks-Holds :
        (seen es : List (Edge X)) (m : BTreeMap VertexPair (Edge X))
        → Holds seen m
        → Holds (seen ++ es) (picks es m)
    unfolding picks
    picks-Holds seen [] m h = subst (λ l. Holds l m) (sym (append-nil seen)) h
    picks-Holds seen (e ∷ es) m h =
        subst (λ l. Holds l (picks es (pick m e))) (append_assoc seen (e ∷ []) es)
          (picks-Holds (seen ++ e ∷ []) es (pick m e) (pick-Holds seen m e h))
