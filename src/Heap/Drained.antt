-- ===== src/Heap/Drained.antt =====
-- pallets/aggregator/src/heap.rs: `pop` until nothing is left.
use Prim.Native.Nat.Ordering.{lt}
use mathlib.Core.List.{reverse-append, reverse-reverse}
use substrate_aggregator.Prelude.{
  Option, ℕ, zero, suc, ◌≡◌, refl, sym, ap, ◌∙◌, subst, none, some, List, [], ◌∷◌, ◌++◌, reverse,
  length, All, arith,
}
use substrate_aggregator.Ord.{Ord}
use substrate_aggregator.Collections.BTreeSet
use substrate_aggregator.Collections.BTreeSet.{BTreeSet, Ascends}
use substrate_aggregator.Heap.{BTreeSetHeap, new, pop}
use substrate_aggregator.Heap.Order.{IsHeap, remove-skips, remove-only}

module _ {E : Type 0} ⦃o : Ord E⦄ where
  -- What a number of pops leave, and what they take, with the first one in front.
  unfoldable pub pop_times : ℕ → BTreeSetHeap E → BTreeSetHeap E × List E
  pop_times zero heap = (heap, [])
  pop_times (suc n) heap =
      let (left, popped) = pop heap in
      let (rest, others) = pop_times n left in
      (rest, elim popped [ none ↦ others | some e ↦ e ∷ others ])

  next_back-snoc : (s : BTreeSet E) (e : E) → BTreeSet.next_back (s ++ (e ∷ [])) ≡ some e
  unfolding BTreeSet.next_back
  next_back-snoc [] e = refl
  next_back-snoc (j ∷ []) e = refl
  next_back-snoc (j ∷ i ∷ s) e = next_back-snoc (i ∷ s) e

  below_last :
      (j : E) (s : BTreeSet E) (e : E) → All (λ i. o.cmp j i ≡ lt) (s ++ (e ∷ [])) → o.cmp j e ≡ lt
  below_last j [] e (h, _) = h
  below_last j (i ∷ s) e (_, h) = below_last j s e h

  remove-snoc :
      (s : BTreeSet E) (e : E) → Ascends (s ++ (e ∷ [])) → BTreeSet.remove e (s ++ (e ∷ [])) ≡ s
  remove-snoc [] e h = remove-only e
  remove-snoc (j ∷ s) e (above, h) =
      remove-skips j e (s ++ (e ∷ [])) (below_last j s e above)
      ∙ ap (λ t. j ∷ t) (remove-snoc s e h)

  Ascends-init : (s : BTreeSet E) (e : E) → Ascends (s ++ (e ∷ [])) → Ascends s
  Ascends-init [] e h = tt
  Ascends-init (j ∷ s) e (above, h) = (All_init _ s above, Ascends-init s e h)
    where
      All_init : (P : E → Type 0) (s : List E) → All P (s ++ (e ∷ [])) → All P s
      All_init P [] h = tt
      All_init P (i ∷ s) (h, hs) = (h, All_init P s hs)

  reverse-cons : (e : E) (r : List E) → reverse (e ∷ r) ≡ reverse r ++ (e ∷ [])
  reverse-cons e r = reverse-append (e ∷ []) r

  pop-snoc :
      (s : BTreeSet E) (e : E)
      → Ascends (s ++ (e ∷ []))
      → pop (record { elements = s ++ (e ∷ []) }) ≡ (record { elements = s }, some e)
  unfolding pop
  pop-snoc s e h = ground (arith, next_back-snoc s e, remove-snoc s e h)

  pop_times-suc :
      (n : ℕ) (heap left rest : BTreeSetHeap E) (e : E) (others : List E)
      → pop heap ≡ (left, some e)
      → pop_times n left ≡ (rest, others)
      → pop_times (suc n) heap ≡ (rest, e ∷ others)
  unfolding pop_times
  pop_times-suc n heap left rest e others first then_others =
      ap
        (λ (x : BTreeSetHeap E × Option E). (
          (pop_times n x.0).0,
          elim x.1 [ none ↦ (pop_times n x.0).1 | some i ↦ i ∷ (pop_times n x.0).1 ],
        ))
        first
      ∙ ap (λ (x : BTreeSetHeap E × List E). (x.0, e ∷ x.1)) then_others

  drained :
      (r : List E)
      → Ascends (reverse r)
      → pop_times (length r) (record { elements = reverse r }) ≡ (record { elements = [] }, r)
  unfolding pop_times
  drained [] h = refl
  drained (e ∷ r) h =
      let asc = subst Ascends (reverse-cons e r) h in
      subst
        (λ s.
          pop_times (suc (length r)) (record { elements = s }) ≡ (record { elements = [] }, e ∷ r))
        (sym (reverse-cons e r))
        (pop_times-suc (length r) _ _ _ e r (pop-snoc (reverse r) e asc)
          (drained r (Ascends-init (reverse r) e asc)))

  -- As many pops as the heap has elements take them all, each once and the larger ones first, and leave an
  -- empty heap.
  pub pop_times-drains :
      (heap : BTreeSetHeap E)
      → IsHeap heap
      → pop_times (length (reverse heap.elements)) heap ≡ (new, reverse heap.elements)
  unfolding new
  pop_times-drains heap h =
      let same = reverse-reverse heap.elements in
      subst
        (λ s.
          pop_times (length (reverse heap.elements)) (record { elements = s })
          ≡ (record { elements = [] }, reverse heap.elements))
        same (drained (reverse heap.elements) (subst Ascends (sym same) h))
