-- ===== src/Tests/Stores.antt =====
-- The heap and the template pallet.
use substrate_aggregator.Prelude.{
  ℕ, ◌-◌, ◌^◌, suc, ◌≡◌, refl, ◌↔◌, ◌⊎◌, Option, none, some, [], ◌∷◌, arith, ◌∈◌, false,
}
use substrate_aggregator.Ord.{nat_ord}
use substrate_aggregator.Heap.{BTreeSetHeap, new, pop, push}
use substrate_aggregator.Heap.Order.{IsHeap, LastOf, pop-largest, push-holds}
use substrate_aggregator.Heap.Drained.{pop_times, pop_times-drains}
use substrate_aggregator.Template.{
  State, ok, err, pallet_error, storage_overflow, something_stored, do_something,
}
use substrate_aggregator.Template.Counter.{cause_errors, do_something-counts}

abbrev heap : BTreeSetHeap ℕ
heap = record { elements = 2 ∷ 5 ∷ 9 ∷ [] }

heap-IsHeap : IsHeap heap
heap-IsHeap = ground arith

pop-largest_example :
    ((heap.elements ≡ []) × (pop heap ≡ (heap, none)))
    ⊎ ((last : ℕ) × (rest : BTreeSetHeap ℕ) × (pop heap ≡ (rest, some last))
        × LastOf heap.elements last rest.elements)
pop-largest_example = pop-largest heap heap-IsHeap

push-holds_example :
    IsHeap (push 7 heap).0
    × ((k : ℕ) → (k ∈ (push 7 heap).0.elements) ↔ ((7 ≡ k) ⊎ (k ∈ heap.elements)))
    × (((push 7 heap).1 ≡ false) ↔ (7 ∈ heap.elements))
push-holds_example = push-holds 7 heap heap-IsHeap

pop_times-drains_example : pop_times 3 heap ≡ (new, 9 ∷ 5 ∷ 2 ∷ [])
pop_times-drains_example = pop_times-drains heap heap-IsHeap

abbrev blank : State ℕ
blank = record { something = none; events = [] }

do_something-counts_example :
    (stored : State ℕ) × (do_something {Account = ℕ} {Origin = Option ℕ}
        (λ origin. origin)
        (some 3)
        40
        blank
      ≡ ok stored)
    × (stored.events ≡ something_stored 40 3 ∷ [])
    × (cause_errors {Account = ℕ} {Origin = Option ℕ} (λ origin. origin) (some 3) 2 stored
        ≡ ok (record stored { something = some 42 }))
    × (cause_errors {Account = ℕ} {Origin = Option ℕ}
          (λ origin. origin)
          (some 3)
          (suc (2 ^ 32 - 1 - 40))
          stored
        ≡ err (pallet_error storage_overflow))
do_something-counts_example =
    do_something-counts {Account = ℕ} {Origin = Option ℕ} (λ origin. origin) (some 3) refl 40 2
      blank (omega arith)
