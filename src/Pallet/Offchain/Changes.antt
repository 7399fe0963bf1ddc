-- ===== src/Pallet/Offchain/Changes.antt =====
-- pallets/aggregator/src/lib.rs: which changes the off-chain worker selects.
use substrate_aggregator.Prelude.{
  ℕ, ◌≡◌, ◌↔◌, refl, sym, subst, none, some, true, List, ◌++◌, ◌⊎◌, inl, inr, ◌∈◌, mem-append_left,
  mem-append_right, mem-append_split,
}
use substrate_aggregator.Ord.{Ord}
use substrate_aggregator.Collections.BTreeMap
use substrate_aggregator.Collections.BTreeMap.{BTreeMap}
use substrate_aggregator.Collections.BTreeMap.Entries.{Ascends, mem_of_get, get_of_mem}
use substrate_aggregator.Storage.{Storage, IsListing}
use substrate_aggregator.Types.{Pair, PricePath, pair_ord}
use substrate_aggregator.Pallet.State.{Amount, Change}
use substrate_aggregator.Pallet.Offchain.{
  done, change_to, path_breaches, changed_paths, added_paths, select_changes,
}
use substrate_aggregator.Pallet.Offchain.Loops.{
  done_of_bind, done-injective, AllComparable, changed_paths-total, changed_paths-mem,
  changed_paths-covers,
}
use substrate_aggregator.Pallet.Offchain.Added.{added_paths-mem, added_paths-covers}

module _ {C A : Type 0} ⦃a : Amount A⦄ ⦃o : Ord C⦄ (tolerance : ℕ)
    (best_paths : Storage (Pair C) (PricePath C A)) (new : BTreeMap (Pair C) (PricePath C A)) where
  -- The new path of a pair that has none, or whose stored path differs by more than the tolerance.
  abbrev pub IsSelected : Pair C → PricePath C A → Type 0
  IsSelected pair path =
      (BTreeMap.get pair new ≡ some path)
      × ((best_paths pair ≡ none)
          ⊎ ((old : PricePath C A) × (best_paths pair ≡ some old)
              × (path_breaches tolerance old path ≡ done true)))

  -- Of the entries of the two maps, the worker selects exactly the new paths of pairs that have none and
  -- those that breach the tolerance.
  pub select_changes-mem_iff :
      (stored : List (Pair C × PricePath C A)) (changes : List (Change C A)) (c : Change C A)
      → IsListing stored best_paths
      → Ascends new
      → select_changes tolerance best_paths stored new ≡ done changes
      → (c ∈ changes) ↔ (
          (pair : Pair C) × (path : PricePath C A) × IsSelected pair path
          × (c ≡ change_to pair path))
  unfolding select_changes
  select_changes-mem_iff stored changes c lists ascends e =
      let (changed, e1, r) = done_of_bind (changed_paths tolerance new stored) _ e in
      let added = added_paths best_paths new in
      let split : changed ++ added ≡ changes = done-injective r in
      (
        λ m. elim (mem-append_split c changed added (subst (λ l. c ∈ l) (sym split) m)) [
          | inl m ↦
              let (pair, old, path, here, (found, breach), same) =
                changed_paths-mem tolerance new stored changed c e1 m in
              (pair, path, (found, inr (old, (lists pair old).0 here, breach)), same)
          | inr m ↦
              let (pair, path, here, absent, same) = added_paths-mem best_paths new c m in
              (pair, path, (get_of_mem pair path new ascends here, inl absent), same)
        ],
        λ (pair, path, (found, reason), same).
            subst (λ l. c ∈ l) split
              (subst (λ x. x ∈ (changed ++ added)) (sym same)
                (elim reason [
                  | inl absent ↦ mem-append_right (change_to pair path) changed added (
                      added_paths-covers best_paths new pair path (mem_of_get pair new found)
                        absent)
                  | inr (old, e, breach) ↦ mem-append_left (change_to pair path) changed added (
                      changed_paths-covers tolerance new stored changed pair old path e1
                        ((lists pair old).1 e) (found, breach))
                ])),
      )

  select_changes_of_changed :
      (stored : List (Pair C × PricePath C A)) (changed : List (Change C A))
      → changed_paths tolerance new stored ≡ done changed
      → select_changes tolerance best_paths stored new
        ≡ done (changed ++ added_paths best_paths new)
  unfolding select_changes
  select_changes_of_changed stored changed e = rw e refl

  -- If the costs can be compared, the selection ends with a list of changes: exactly the new paths of
  -- pairs that have none stored, and those that differ from the stored one by more than the tolerance.
  -- So it never asks for a removal.
  pub select_changes-selects :
      (stored : List (Pair C × PricePath C A))
      → IsListing stored best_paths
      → Ascends new
      → AllComparable tolerance new stored
      → (changes : List (Change C A)) × (select_changes tolerance best_paths stored new
          ≡ done changes)
        × ((c : Change C A)
            → (c ∈ changes) ↔ (
                (pair : Pair C) × (path : PricePath C A) × IsSelected pair path
                × (c ≡ change_to pair path)))
  select_changes-selects stored lists ascends comparable =
      let (changed, e) = changed_paths-total tolerance new stored comparable in
      let ends = select_changes_of_changed stored changed e in
      (
        changed ++ added_paths best_paths new,
        ends,
        λ c. select_changes-mem_iff stored _ c lists ascends ends,
      )
