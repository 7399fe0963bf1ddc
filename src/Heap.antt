-- ===== src/Heap.antt =====
-- pallets/aggregator/src/heap.rs: a heap on a `BTreeSet`.
pub mod Order
pub mod Drained
use substrate_aggregator.Prelude.{Bool, not, Option, none, some, []}
use substrate_aggregator.Ord.{Ord}
use substrate_aggregator.Collections.BTreeSet
use substrate_aggregator.Collections.BTreeSet.{BTreeSet}

-- `BTreeSetHeap`
pub record BTreeSetHeap (E : Type 0) : Type 0 where
  pub elements : BTreeSet E

module _ {E : Type 0} ⦃o : Ord E⦄ where
  unfoldable pub new : BTreeSetHeap E
  new = record { elements = [] }

  -- The heap without its largest element, and that element.
  unfoldable pub pop : BTreeSetHeap E → BTreeSetHeap E × Option E
  pop heap = elim (BTreeSet.next_back heap.elements) [
    | none ↦ (heap, none)
    | some last ↦ (record { elements = BTreeSet.remove last heap.elements }, some last)
  ]

  -- Whether the element was not there yet.
  unfoldable pub push : E → BTreeSetHeap E → BTreeSetHeap E × Bool
  push e heap = (
    record { elements = BTreeSet.insert e heap.elements },
    not (BTreeSet.contains e heap.elements),
  )
