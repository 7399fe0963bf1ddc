-- ===== src/Pallet/Offchain/Effect.antt =====
-- pallets/aggregator/src/lib.rs: what the stored paths become when the chain applies the payload that
-- the off-chain worker submits.
use substrate_aggregator.Prelude.{
  ℕ, ◌≡◌, refl, sym, ◌∙◌, ap, subst, Option, none, some, Bool, true, false, Bool-cases, List, [],
  ◌∷◌, ◌⊎◌, inl, inr, ◌∈◌, returns, arith, ◌≢◌, ◌↔◌,
}
use substrate_aggregator.Ord.{Ord, nat_ord, ◌==◌, ==_iff}
use substrate_aggregator.Collections.BTreeMap
use substrate_aggregator.Collections.BTreeMap.{BTreeMap}
use substrate_aggregator.Collections.BTreeMap.Entries.{Ascends}
use substrate_aggregator.Storage.{Storage, IsListing, write, write_self, write-ne}
use substrate_aggregator.Types.{Pair, ProviderPair, PricePath, ok, pair_ord}
use substrate_aggregator.Pallet.Config.{Config}
use substrate_aggregator.Pallet.State.{
  Amount, Origins, Change, BestPathChangesPayload, PriceEntry, State, Result,
}
use substrate_aggregator.Pallet.BestPaths.{
  pair_of, change_path, apply_changes, ocw_submit_best_paths_changes,
}
use substrate_aggregator.Pallet.BestPaths.Accepted.{best_paths-ocw_submit, accepted_iff}
use substrate_aggregator.Pallet.BestPaths.Latest.{change_path_lem}
use substrate_aggregator.Pallet.Offchain.{
  Run, done, failed, panicked, ◌>>=◌, BestPathCalculator, Signer, TradeProvider, change_to,
  path_breaches, select_changes, send_changes, update_best_paths, fetch_prices,
  fetch_prices_and_update_best_paths,
}
use substrate_aggregator.Pallet.Offchain.Changes.{IsSelected, select_changes-mem_iff}
use substrate_aggregator.Pallet.Offchain.Loops.{done_of_bind}
use substrate_aggregator.Pallet.Offchain.Sent.{send_changes-sent}

module _ {C A : Type 0} ⦃a : Amount A⦄ ⦃o : Ord C⦄ where
  -- Changes that agree on the path of a pair: if some change names the pair, or the pair holds that path
  -- already, then it holds it afterwards.
  apply_changes-agree :
      (k : Pair C) (v : Option (PricePath C A)) (cs : List (Change C A))
      (m : Storage (Pair C) (PricePath C A)) (es : List (PriceEntry C A))
      → ((c : Change C A) → c ∈ cs → pair_of c ≡ k → c.2 ≡ v)
      → (((c : Change C A) × (c ∈ cs) × (pair_of c ≡ k)) ⊎ (m k ≡ v))
      → (apply_changes cs m es).0 k ≡ v
  unfolding apply_changes
  apply_changes-agree k v [] m es agree (inl (c, h, e)) = absurd h
  apply_changes-agree k v [] m es agree (inr h) = h
  apply_changes-agree k v (c ∷ cs) m es agree h =
      apply_changes-agree k v cs _ _ (λ d d_mem. agree d (inr d_mem))
        (elim (Bool-cases (pair_of c == k)) [
          | inl e ↦
              let same = (==_iff (pair_of c) k).0 e in
              inr (
                subst (λ j. write (pair_of c) (change_path c (m (pair_of c))) m j ≡ v) same
                  (write_self (pair_of c) _ m
                    ∙ (change_path_lem c (m (pair_of c)) ∙ agree c (inl refl) same)))
          | inr e ↦
              let apart : pair_of c ≢ k = λ same. ground (arith, ==_iff (pair_of c) k) in
              elim h [
                | inl (d, inl here, d_names) ↦ absurd (apart (ap pair_of here ∙ d_names))
                | inl (d, inr there, d_names) ↦ inl (d, there, d_names)
                | inr holds ↦ inr (write-ne (pair_of c) k _ m apart ∙ holds)
              ]
        ])

  abbrev pub kept : Run Bool → (path old : PricePath C A) → Option (PricePath C A)
  kept (done true) path old = some path
  kept (done false) path old = some old
  kept (failed e) path old = some old
  kept panicked path old = some old

  -- The path that a pair holds after the worker's changes, from the new path and the one it held: the
  -- new path if it held none or differs by more than the tolerance, and what it held otherwise.
  abbrev pub refreshed : (tolerance : ℕ) (new old : Option (PricePath C A)) → Option (PricePath C A)
  refreshed tolerance none old = old
  refreshed tolerance (some path) none = some path
  refreshed tolerance (some path) (some old) = kept (path_breaches tolerance old path) path old

  module _ (tolerance : ℕ) (m : Storage (Pair C) (PricePath C A))
      (new : BTreeMap (Pair C) (PricePath C A)) (k : Pair C) where
    -- The path that the worker selects for a pair, if any, decides what the pair holds.
    refreshed-selected :
        (path : PricePath C A)
        → IsSelected tolerance m new k path
        → refreshed tolerance (BTreeMap.get k new) (m k) ≡ some path
    refreshed-selected path (found, inl absent) = rw (found, absent) refl
    refreshed-selected path (found, inr (old, e, breach)) = rw (found, e, breach) refl

    refreshed-cases :
        ((path : PricePath C A) × IsSelected tolerance m new k path)
        ⊎ (refreshed tolerance (BTreeMap.get k new) (m k) ≡ m k)
    refreshed-cases = by_new (BTreeMap.get k new) (m k) refl refl
      where
        by_breach :
            (path old : PricePath C A) (r : Run Bool)
            → BTreeMap.get k new ≡ some path
            → m k ≡ some old
            → path_breaches tolerance old path ≡ r
            → ((p : PricePath C A) × IsSelected tolerance m new k p)
              ⊎ (refreshed tolerance (BTreeMap.get k new) (m k) ≡ m k)
        by_breach path old (done true) e h b = inl (path, (e, inr (old, h, b)))
        by_breach path old (done false) e h b = inr (rw (e, h, b) refl)
        by_breach path old (failed f) e h b = inr (rw (e, h, b) refl)
        by_breach path old panicked e h b = inr (rw (e, h, b) refl)

        by_new :
            (x y : Option (PricePath C A))
            → BTreeMap.get k new ≡ x
            → m k ≡ y
            → ((p : PricePath C A) × IsSelected tolerance m new k p)
              ⊎ (refreshed tolerance (BTreeMap.get k new) (m k) ≡ m k)
        by_new none y e h = inr (rw e refl)
        by_new (some path) none e h = inl (path, (e, inl h))
        by_new (some path) (some old) e h =
            by_breach path old (path_breaches tolerance old path) e h refl

  pub apply_changes-refreshes :
      (tolerance : ℕ) (m : Storage (Pair C) (PricePath C A))
      (new : BTreeMap (Pair C) (PricePath C A)) (stored : List (Pair C × PricePath C A))
      (changes : List (Change C A)) (k : Pair C)
      → IsListing stored m
      → Ascends new
      → select_changes tolerance m stored new ≡ done changes
      → (apply_changes changes m []).0 k ≡ refreshed tolerance (BTreeMap.get k new) (m k)
  apply_changes-refreshes tolerance m new stored changes k lists ascends e =
      let selected_iff : (c : Change C A)
          → (c ∈ changes) ↔ (
              (pair : Pair C) × (path : PricePath C A) × IsSelected tolerance m new pair path
              × (c ≡ change_to pair path)) =
        λ c. select_changes-mem_iff tolerance m new stored changes c lists ascends e in
      apply_changes-agree k (refreshed tolerance (BTreeMap.get k new) (m k)) changes m []
        (λ c c_mem names.
          let (pair, path, selected, same) = (selected_iff c).0 c_mem in
          let here : pair ≡ k = sym (ap pair_of same) ∙ names in
          ap (λ x. x.2) same
          ∙ sym (
              refreshed-selected tolerance m new k path
                (subst (λ j. IsSelected tolerance m new j path) here selected)))
        (elim (refreshed-cases tolerance m new k) [
          | inl (path, selected) ↦ inl (
            change_to k path,
            (selected_iff (change_to k path)).1 (k, path, selected, refl),
            refl,
          )
          | inr holds ↦ inr (sym holds)
        ])

  module _ {Account Public : Type 0} (c : Config) (market : TradeProvider C A)
      (calculator : BestPathCalculator C A) (signer : Signer Public C A) where
    -- A payload sent comes of a calculation and a selection that succeed.
    update_best_paths-sent :
        (fetched : List (ProviderPair C × A)) (stored : List (Pair C × PricePath C A))
        (block_number : ℕ) (s : State Account C A) (p : BestPathChangesPayload Public C A)
        (new : BTreeMap (Pair C) (PricePath C A))
        → update_best_paths c market calculator signer fetched stored block_number s ≡ done (some p)
        → calculator.calc_best_paths fetched ≡ returns (ok new)
        → (select_changes c.price_change_tolerance s.best_paths stored new ≡ done p.changes)
          × (p.nonce ≡ s.unsigned_tx_nonce)
    unfolding update_best_paths
    update_best_paths-sent [] stored block_number s p new run new_paths = absurd (ground arith)
    update_best_paths-sent (x ∷ fetched) stored block_number s p new run new_paths =
        let selected_run : select_changes c.price_change_tolerance s.best_paths stored new
              >>= send_changes signer s.unsigned_tx_nonce block_number
            ≡ done (some p) =
          rw new_paths at run in
        let (changes, e, sent) =
          done_of_bind (select_changes c.price_change_tolerance s.best_paths stored new) _
            selected_run in
        let (same_changes, same_nonce, _) =
          send_changes-sent signer _ block_number changes p sent in
        (e ∙ ap done (sym same_changes), same_nonce)

    module _ (f : Origins Account) where
      -- A payload that the worker sends is accepted, from an unsigned origin, by the state it was made
      -- from. Each pair then holds its new path if it held none or if the costs differ by more than the
      -- tolerance, and what it held otherwise.
      pub fetch_prices-refreshes :
          (monitored : List (ProviderPair C)) (fetched : List (ProviderPair C × A))
          (stored : List (Pair C × PricePath C A)) (block_number : ℕ) (s : State Account C A)
          (p : BestPathChangesPayload Public C A) (new : BTreeMap (Pair C) (PricePath C A))
          (origin : f.Origin)
          → fetch_prices market monitored ≡ done fetched
          → calculator.calc_best_paths fetched ≡ returns (ok new)
          → fetch_prices_and_update_best_paths c market calculator signer monitored stored
              block_number s
            ≡ done (some p)
          → Ascends new
          → IsListing stored s.best_paths
          → f.ensure_none origin ≡ true
          → (s' : State Account C A) × (ocw_submit_best_paths_changes f origin p s ≡ Result.ok s')
            × ((k : Pair C)
                → s'.best_paths k
                  ≡ refreshed c.price_change_tolerance (BTreeMap.get k new) (s.best_paths k))
      unfolding fetch_prices_and_update_best_paths
      fetch_prices-refreshes monitored fetched stored block_number s p new origin prices new_paths
            run ascends lists unsigned =
          let (selected, nonce) =
            update_best_paths-sent fetched stored block_number s p new (rw prices at run)
              new_paths in
          let (s', accepted) = (accepted_iff f origin p s).1 (unsigned, sym nonce) in
          (
            s',
            accepted,
            λ k. rw (best_paths-ocw_submit f origin p s accepted) (
                apply_changes-refreshes c.price_change_tolerance s.best_paths new stored p.changes k
                  lists ascends selected),
          )
