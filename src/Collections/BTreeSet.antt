-- ===== src/Collections/BTreeSet.antt =====
-- `BTreeSet` as the list of its elements in order, which is how it iterates.
pub mod Elements
use Prim.Native.Nat.Ordering.{lt, eq, gt}
use substrate_aggregator.Prelude.{
  ◌≡◌, refl, Bool, false, ◌||◌, List, [], ◌∷◌, arith, ◌∈◌, inl, Option, none, some, if◌then◌else◌,
  All,
}
use substrate_aggregator.Ord.{Ord, ◌==◌}

abbrev pub BTreeSet {ℓ} : Type ℓ → Type ℓ
BTreeSet K = List K

module _ {K : Type 0} ⦃o : Ord K⦄ where
  unfoldable pub contains : K → BTreeSet K → Bool
  contains k [] = false
  contains k (j ∷ s) = j == k || contains k s

  unfoldable pub insert : K → BTreeSet K → BTreeSet K
  insert k [] = k ∷ []
  insert k (j ∷ s) = elim (o.cmp k j) [ lt ↦ k ∷ j ∷ s | eq ↦ j ∷ s | gt ↦ j ∷ insert k s ]

  -- The last element of the iteration.
  unfoldable pub next_back : BTreeSet K → Option K
  next_back [] = none
  next_back (j ∷ []) = some j
  next_back (j ∷ i ∷ s) = next_back (i ∷ s)

  unfoldable pub remove : K → BTreeSet K → BTreeSet K
  remove k [] = []
  remove k (j ∷ s) = if j == k then s else j ∷ remove k s

  -- The elements ascend.
  abbrev pub Ascends : BTreeSet K → Type 0
  Ascends [] = Unit
  Ascends (j ∷ s) = All (λ i. o.cmp j i ≡ lt) s × Ascends s

  -- After an insertion the set holds the element and what it held before.
  pub contains-insert :
      (k j : K) (s : BTreeSet K) → contains j (insert k s) ≡ (k == j || contains j s)
  unfolding contains insert
  contains-insert k j [] = refl
  contains-insert k j (i ∷ s) = ground (
    arith,
    contains-insert k j s,
    o.eq_of_cmp k i,
    o.eq_of_cmp k j,
    o.eq_of_cmp i j,
    o.cmp_refl k,
  )

module _ {K : Type 0} ⦃o : Ord K⦄ where
  pub insert-mem_self : (k : K) (s : BTreeSet K) → k ∈ insert k s
  unfolding insert
  insert-mem_self k [] = inl refl
  insert-mem_self k (j ∷ s) = ground (arith, insert-mem_self k s, o.eq_of_cmp k j)

  pub insert-mem : (k j : K) (s : BTreeSet K) → j ∈ s → j ∈ insert k s
  unfolding insert
  insert-mem k j [] h = absurd h
  insert-mem k j (i ∷ s) h = ground (arith, insert-mem k j s)
