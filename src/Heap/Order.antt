-- ===== src/Heap/Order.antt =====
-- pallets/aggregator/src/heap.rs: what `pop` and `push` do to the elements of a heap.
use Prim.Native.Nat.Ordering.{lt}
use mathlib.Core.Option.{some-injective}
use mathlib.Core.Bool.{false≢true}
use substrate_aggregator.Prelude.{
  ◌≡◌, refl, subst, ◌↔◌, ◌⊎◌, inl, inr, true, false, none, some, [], ◌∷◌, All, All-mem, ◌∈◌, arith,
}
use substrate_aggregator.Ord.{Ord, ==_iff, ==_refl}
use substrate_aggregator.Collections.BTreeSet
use substrate_aggregator.Collections.BTreeSet.{BTreeSet, Ascends, insert-mem, insert-mem_self}
use substrate_aggregator.Collections.BTreeSet.Elements.{insert-mem_inv, insert-Ascends}
use substrate_aggregator.Heap.{BTreeSetHeap, pop, push}

module _ {E : Type 0} ⦃o : Ord E⦄ where
  -- The elements ascend, as they do in every `BTreeSet`.
  abbrev pub IsHeap : BTreeSetHeap E → Type 0
  IsHeap heap = Ascends heap.elements

  -- The set is `rest` with a larger element behind it.
  pub record LastOf (s : BTreeSet E) (last : E) (rest : BTreeSet E) : Type 0 where
    pub ascends : Ascends rest
    pub below : All (λ i. o.cmp i last ≡ lt) rest
    pub parts : (k : E) → (k ∈ s) ↔ ((k ∈ rest) ⊎ (last ≡ k))

  remove-All : (P : E → Type 0) (k : E) (s : BTreeSet E) → All P s → All P (BTreeSet.remove k s)
  unfolding BTreeSet.remove
  remove-All P k [] h = tt
  remove-All P k (j ∷ s) (h, hs) = ground (arith, remove-All P k s hs)

  pub remove-skips :
      (j k : E) (s : BTreeSet E)
      → o.cmp j k ≡ lt
      → BTreeSet.remove k (j ∷ s) ≡ j ∷ BTreeSet.remove k s
  unfolding BTreeSet.remove
  remove-skips j k s h = ground arith

  pub remove-only : (j : E) → BTreeSet.remove j (j ∷ []) ≡ []
  unfolding BTreeSet.remove
  remove-only j = rw (==_refl j)

  cons-LastOf :
      (j last : E) (s rest : BTreeSet E)
      → All (λ i. o.cmp j i ≡ lt) rest
      → o.cmp j last ≡ lt
      → LastOf s last rest
      → LastOf (j ∷ s) last (j ∷ rest)
  cons-LastOf j last s rest above less l = record {
    ascends = (above, l.ascends);
    below = (less, l.below);
    parts = λ k. (
      λ m. elim m [
        | inl e ↦ inl (inl e)
        | inr later ↦ elim ((l.parts k).0 later) [ inl a ↦ inl (inr a) | inr b ↦ inr b ]
      ],
      λ m. elim m [
        | inr e ↦ inr ((l.parts k).1 (inr e))
        | inl m' ↦ elim m' [ inl e ↦ inl e | inr later ↦ inr ((l.parts k).1 (inl later)) ]
      ],
    );
  }

  next_back-LastOf :
      (s : BTreeSet E) (last : E)
      → Ascends s
      → BTreeSet.next_back s ≡ some last
      → LastOf s last (BTreeSet.remove last s)
  unfolding BTreeSet.next_back
  next_back-LastOf [] last asc h = absurd (cc)
  next_back-LastOf (j ∷ []) last asc h =
      let same : j ≡ last = some-injective _ _ h in
      rw (← same, remove-only j)
        (record {
          ascends = tt;
          below = tt;
          parts = λ k. (
            λ m. elim m [ inl e ↦ inr e | inr none_left ↦ absurd none_left ],
            λ m. elim m [ inl none_left ↦ absurd none_left | inr e ↦ inl e ],
          );
        })
  next_back-LastOf (j ∷ i ∷ s) last (above, asc) h =
      let l = next_back-LastOf (i ∷ s) last asc h in
      let less = All-mem (λ x. o.cmp j x ≡ lt) last (i ∷ s) above ((l.parts last).1 (inr refl)) in
      rw (remove-skips j last (i ∷ s) less) (
        cons-LastOf j last (i ∷ s) (BTreeSet.remove last (i ∷ s))
          (remove-All (λ x. o.cmp j x ≡ lt) last (i ∷ s) above) less l)

  next_back-cases :
      (s : BTreeSet E)
      → ((s ≡ []) × (BTreeSet.next_back s ≡ none))
        ⊎ ((last : E) × (BTreeSet.next_back s ≡ some last))
  unfolding BTreeSet.next_back
  next_back-cases [] = inl (refl, refl)
  next_back-cases (j ∷ []) = inr (j, refl)
  next_back-cases (j ∷ i ∷ s) = elim (next_back-cases (i ∷ s)) [
    | inl (e, _) ↦ absurd (cc)
    | inr found ↦ inr found
  ]

  -- From an empty heap nothing is popped, and it stays empty. From any other one an element is
  -- popped that is larger than all others; these are what is left, and they are a heap.
  pub pop-largest :
      (heap : BTreeSetHeap E)
      → IsHeap heap
      → ((heap.elements ≡ []) × (pop heap ≡ (heap, none)))
        ⊎ ((last : E) × (rest : BTreeSetHeap E) × (pop heap ≡ (rest, some last))
            × LastOf heap.elements last rest.elements)
  unfolding pop
  pop-largest heap h = elim (next_back-cases heap.elements) [
    | inl (empty, nothing) ↦ inl (empty, ground arith)
    | inr (last, found) ↦ inr (
      last,
      record { elements = BTreeSet.remove last heap.elements },
      ground arith,
      next_back-LastOf heap.elements last h found,
    )
  ]

  contains_iff : (k : E) (s : BTreeSet E) → (BTreeSet.contains k s ≡ true) ↔ (k ∈ s)
  unfolding BTreeSet.contains
  contains_iff k [] = (λ h. absurd (false≢true h), λ h. absurd h)
  contains_iff k (j ∷ s) =
      let ih = contains_iff k s in
      (λ h. ground (arith, ih, ==_iff j k), λ h. ground (arith, ih, ==_iff j k))

  -- After a push the heap holds the element and what it held; it is a heap; and the result says
  -- whether the element was not there.
  pub push-holds :
      (e : E) (heap : BTreeSetHeap E)
      → IsHeap heap
      → IsHeap (push e heap).0
        × ((k : E) → (k ∈ (push e heap).0.elements) ↔ ((e ≡ k) ⊎ (k ∈ heap.elements)))
        × (((push e heap).1 ≡ false) ↔ (e ∈ heap.elements))
  unfolding push
  push-holds e heap h =
      let there = contains_iff e heap.elements in
      (
        insert-Ascends e heap.elements h,
        λ k. (
          insert-mem_inv e k heap.elements,
          λ m. elim m [
            | inl same ↦
                subst (λ x. x ∈ BTreeSet.insert e heap.elements) same
                  (insert-mem_self e heap.elements)
            | inr old ↦ insert-mem e k heap.elements old
          ],
        ),
        (λ r. there.0 (ground arith), λ m. ground (arith, there)),
      )
