-- ===== src/Pallet/Offchain/Added.antt =====
-- pallets/aggregator/src/lib.rs: what the second loop of the off-chain worker selects.
use substrate_aggregator.Prelude.{
  ◌≡◌, refl, sym, ◌∙◌, ap, subst, none, some, List, [], ◌∷◌, inl, inr, ◌∈◌, Option-cases,
}
use substrate_aggregator.Storage.{Storage}
use substrate_aggregator.Types.{Pair, PricePath, pair_ord}
use substrate_aggregator.Pallet.State.{Change}
use substrate_aggregator.Pallet.Offchain.{change_to, added_paths}

module _ {C A : Type 0} (best_paths : Storage (Pair C) (PricePath C A)) where
  added_paths-nil : added_paths best_paths [] ≡ []
  unfolding added_paths
  added_paths-nil = refl

  added_paths-absent :
      (pair : Pair C) (path : PricePath C A) (paths : List (Pair C × PricePath C A))
      → best_paths pair ≡ none
      → added_paths best_paths ((pair, path) ∷ paths)
        ≡ change_to pair path ∷ added_paths best_paths paths
  unfolding added_paths
  added_paths-absent pair path paths h = rw (h, added_paths) refl

  added_paths-present :
      (pair : Pair C) (path old : PricePath C A) (paths : List (Pair C × PricePath C A))
      → best_paths pair ≡ some old
      → added_paths best_paths ((pair, path) ∷ paths) ≡ added_paths best_paths paths
  unfolding added_paths
  added_paths-present pair path old paths h = rw (h, added_paths) refl

  pub added_paths-mem :
      (paths : List (Pair C × PricePath C A)) (c : Change C A)
      → c ∈ added_paths best_paths paths
      → (pair : Pair C) × (path : PricePath C A) × ((pair, path) ∈ paths)
        × (best_paths pair ≡ none)
        × (c ≡ change_to pair path)
  added_paths-mem [] c m = absurd (subst (λ l. c ∈ l) added_paths-nil m)
  added_paths-mem ((pair, path) ∷ paths) c m = elim (Option-cases (best_paths pair)) [
    | inl absent ↦ elim (subst (λ l. c ∈ l) (added_paths-absent pair path paths absent) m) [
      | inl e ↦ (pair, path, inl refl, absent, sym e)
      | inr there ↦ later (added_paths-mem paths c there)
    ]
    | inr (old, e) ↦
        later (
          added_paths-mem paths c
            (subst (λ l. c ∈ l) (added_paths-present pair path old paths e) m))
  ]
    where
      later :
          (p : Pair C) × (q : PricePath C A) × ((p, q) ∈ paths)
            × (best_paths p ≡ none)
            × (c ≡ change_to p q)
          → (p : Pair C) × (q : PricePath C A) × ((p, q) ∈ ((pair, path) ∷ paths))
            × (best_paths p ≡ none)
            × (c ≡ change_to p q)
      later (p, q, m, absent, e) = (p, q, inr m, absent, e)

  pub added_paths-covers :
      (paths : List (Pair C × PricePath C A)) (pair : Pair C) (path : PricePath C A)
      → (pair, path) ∈ paths
      → best_paths pair ≡ none
      → change_to pair path ∈ added_paths best_paths paths
  added_paths-covers [] pair path m h = absurd m
  added_paths-covers ((pair', path') ∷ paths) pair path m h = elim m [
    | inl same ↦
        let absent : best_paths pair' ≡ none = ap (λ x. best_paths x.0) same ∙ h in
        subst (λ l. change_to pair path ∈ l) (sym (added_paths-absent pair' path' paths absent))
          (inl (ap (λ x. change_to x.0 x.1) same))
    | inr there ↦
        let later = added_paths-covers paths pair path there h in
        elim (Option-cases (best_paths pair')) [
          | inl absent ↦
              subst (λ l. change_to pair path ∈ l)
                (sym (added_paths-absent pair' path' paths absent)) (inr later)
          | inr (old, e) ↦
              subst (λ l. change_to pair path ∈ l)
                (sym (added_paths-present pair' path' old paths e)) later
        ]
  ]
