-- ===== src/Pallet/BestPaths/Journal.antt =====
-- pallets/aggregator/src/lib.rs: what the event of `ocw_submit_best_paths_changes` tells.
use mathlib.Core.Path.{fun_ext}
use mathlib.Core.Option
use substrate_aggregator.Prelude.{
  ◌≡◌, refl, ap, sym, ◌∙◌, ◌≢◌, ◌⊎◌, inl, inr, Option-cases, append-eq-nil, Option, none, some,
  List, [], ◌∷◌, ◌++◌, arith,
}
use substrate_aggregator.Ord.{Ord}
use substrate_aggregator.Storage.{Storage, write, write-same}
use substrate_aggregator.Types.{Pair, PricePath, add, del, pair_ord}
use substrate_aggregator.Pallet.State.{
  Amount, Origins, Change, BestPathChangesPayload, PriceEntry, best_prices_submitted, ok, State,
}
use substrate_aggregator.Pallet.BestPaths.{
  pair_of, change_path, change_entry, apply_changes, submitted, ocw_submit_best_paths_changes,
}
use substrate_aggregator.Pallet.BestPaths.Accepted.{ocw_submit-ok, best_paths-submitted}

-- The prices that a map of paths shows.
abbrev pub costs : {C A : Type 0} → Storage (Pair C) (PricePath C A) → Storage (Pair C) A
costs m k = Option.map (λ p. p.total_cost) (m k)

module _ {C A : Type 0} ⦃o : Ord C⦄ where
  -- A reader of the event follows its entries in order.
  pub follow : List (PriceEntry C A) → Storage (Pair C) A → Storage (Pair C) A
  follow [] v = v
  follow ((s, t, cost, add) ∷ es) v =
      follow es (write (record { source = s; target = t }) (some cost) v)
  follow ((s, t, cost, del) ∷ es) v = follow es (write (record { source = s; target = t }) none v)

  follow_nil : (v : Storage (Pair C) A) → follow [] v ≡ v
  unfolding follow
  follow_nil v = refl

  follow-append :
      (xs ys : List (PriceEntry C A)) (v : Storage (Pair C) A)
      → follow (xs ++ ys) v ≡ follow ys (follow xs v)
  unfolding follow
  follow-append [] ys v = refl
  follow-append ((s, t, cost, add) ∷ xs) ys v = follow-append xs ys _
  follow-append ((s, t, cost, del) ∷ xs) ys v = follow-append xs ys _

  costs-write :
      (k : Pair C) (p : Option (PricePath C A)) (m : Storage (Pair C) (PricePath C A))
      → costs (write k p m) ≡ write k (Option.map (λ q. q.total_cost) p) (costs m)
  unfolding write
  costs-write k p m = fun_ext λ j. ground arith

module _ {C A : Type 0} ⦃a : Amount A⦄ ⦃o : Ord C⦄ where
  follow-change_entry :
      (c : Change C A) (m : Storage (Pair C) (PricePath C A))
      → follow (change_entry c (m (pair_of c))) (costs m)
        ≡ costs (write (pair_of c) (change_path c (m (pair_of c))) m)
  unfolding follow change_entry change_path
  follow-change_entry (s, t, some p) m = sym (costs-write _ (some p) m)
  follow-change_entry (s, t, none) m = elim (Option-cases (m (pair_of {A = A} (s, t, none)))) [
    | inl e ↦ rw e (ap costs (sym (write-same _ none m e)))
    | inr (p, e) ↦ rw e (sym (costs-write _ none m))
  ]

  change_path_of_no_entry :
      (c : Change C A) (old : Option (PricePath C A))
      → change_entry c old ≡ []
      → old ≡ change_path c old
  unfolding change_entry change_path
  change_path_of_no_entry (s, t, some p) old h = cc
  change_path_of_no_entry (s, t, none) none h = refl
  change_path_of_no_entry (s, t, none) (some p) h = cc

  follow-apply_changes :
      (cs : List (Change C A)) (m : Storage (Pair C) (PricePath C A)) (es : List (PriceEntry C A))
      (v : Storage (Pair C) A)
      → follow es v ≡ costs m
      → follow (apply_changes cs m es).1 v ≡ costs (apply_changes cs m es).0
  unfolding apply_changes
  follow-apply_changes [] m es v h = h
  follow-apply_changes (c ∷ cs) m es v h =
      follow-apply_changes cs _ _ v (follow-append es _ v ∙ rw h (follow-change_entry c m))

  payload-apply_changes :
      (cs : List (Change C A)) (m : Storage (Pair C) (PricePath C A)) (es : List (PriceEntry C A))
      → (apply_changes cs m es).1 ≡ []
      → (es ≡ []) × ((apply_changes cs m es).0 ≡ m)
  unfolding apply_changes
  payload-apply_changes [] m es h = (h, refl)
  payload-apply_changes (c ∷ cs) m es h =
      let (none_after, same) = payload-apply_changes cs _ _ h in
      let (none_before, no_entry) = append-eq-nil es _ none_after in
      (none_before, same ∙ write-same _ _ m (change_path_of_no_entry c _ no_entry))

  module _ {Account : Type 0} where
    -- What one call adds to the deposited events.
    events-submitted :
        (r : Storage (Pair C) (PricePath C A) × List (PriceEntry C A)) (s : State Account C A)
        → ((r.1 ≡ []) × ((submitted r s).events ≡ s.events))
          ⊎ ((r.1 ≢ []) × ((submitted r s).events ≡ s.events ++ best_prices_submitted r.1 ∷ []))
    events-submitted (m, []) s = inl (refl, refl)
    events-submitted (m, e ∷ es) s = inr (λ h. cc, refl)

  -- An accepted submission either deposits no event, and then no path has changed; or it deposits
  -- one event with at least one entry, and who follows the entries from the old prices has the new
  -- prices of all pairs.
  pub prices_event-follows :
      {Account Public : Type 0} (f : Origins Account) (origin : f.Origin)
      (p : BestPathChangesPayload Public C A) (s : State Account C A) {s' : State Account C A}
      → ocw_submit_best_paths_changes f origin p s ≡ ok s'
      → ((s'.events ≡ s.events) × (s'.best_paths ≡ s.best_paths))
        ⊎ ((es : List (PriceEntry C A)) × (es ≢ [])
            × (s'.events ≡ s.events ++ best_prices_submitted es ∷ [])
            × (follow es (costs s.best_paths) ≡ costs s'.best_paths))
  prices_event-follows f origin p s {s'} accepted =
      let e = ocw_submit-ok f origin p s accepted in
      let r = apply_changes p.changes s.best_paths [] in
      rw e (elim (events-submitted r s) [
        | inl (none_pushed, same) ↦ inl (
          same,
          (best_paths-submitted r s)
              ∙ (payload-apply_changes p.changes s.best_paths [] none_pushed).1,
        )
        | inr (pushed, new) ↦ inr (
          r.1,
          pushed,
          new,
          follow-apply_changes p.changes s.best_paths [] _ (follow_nil _)
              ∙ ap costs (sym (best_paths-submitted r s)),
        )
      ])
