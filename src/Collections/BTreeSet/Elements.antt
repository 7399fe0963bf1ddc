-- ===== src/Collections/BTreeSet/Elements.antt =====
-- The elements of a `BTreeSet` after an insertion: they ascend, and are those before and the new one.
use Prim.Native.Nat.Ordering.{lt, eq, gt}
use substrate_aggregator.Prelude.{
  ◌≡◌, ◌∙◌, refl, ◌⊎◌, inl, inr, ◌∷◌, [], arith, All, All-map, ◌∈◌, Ordering,
}
use substrate_aggregator.Ord.{Ord}
use substrate_aggregator.Collections.BTreeSet
use substrate_aggregator.Collections.BTreeSet.{BTreeSet, Ascends}

module _ {E : Type 0} ⦃o : Ord E⦄ where
  pub insert-All :
      (P : E → Type 0) (k : E) (s : BTreeSet E) → P k → All P s → All P (BTreeSet.insert k s)
  unfolding BTreeSet.insert
  insert-All P k [] h hs = (h, tt)
  insert-All P k (j ∷ s) h (h', hs) = ground (arith, insert-All P k s h hs)

  pub insert-mem_inv : (k j : E) (s : BTreeSet E) → j ∈ BTreeSet.insert k s → (k ≡ j) ⊎ (j ∈ s)
  unfolding BTreeSet.insert
  insert-mem_inv k j [] (inl e) = inl e
  insert-mem_inv k j [] (inr m) = absurd m
  insert-mem_inv k j (i ∷ s) m = ground (arith, insert-mem_inv k j s)

  pub insert-Ascends : (k : E) (s : BTreeSet E) → Ascends s → Ascends (BTreeSet.insert k s)
  unfolding BTreeSet.insert
  insert-Ascends k [] h = (tt, tt)
  insert-Ascends k (j ∷ s) (above, asc) = go (o.cmp k j) refl (insert-Ascends k s asc)
    where
      go :
          (c : Ordering)
          → o.cmp k j ≡ c
          → Ascends (BTreeSet.insert k s)
          → Ascends (elim c [ lt ↦ k ∷ j ∷ s | eq ↦ j ∷ s | gt ↦ j ∷ BTreeSet.insert k s ])
      go lt e ih = ((e, All-map s (λ x h. o.lt_trans k j x e h) above), (above, asc))
      go eq e ih = (above, asc)
      go gt e ih = (insert-All (λ x. o.cmp j x ≡ lt) k s (o.cmp_swap k j ∙ rw e refl) above, ih)
