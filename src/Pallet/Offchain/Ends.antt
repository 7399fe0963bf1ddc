-- ===== src/Pallet/Offchain/Ends.antt =====
-- pallets/aggregator/src/lib.rs: how a run of the worker ends, once its best paths are calculated.
use substrate_aggregator.Prelude.{
  refl, ℕ, ◌≡◌, inl, inr, some, List, [], ◌∷◌, returns, true, none, ◌⊎◌, sym, ap, ◌∙◌,
}
use substrate_aggregator.Ord.{Ord, nat_ord, tuple_ord}
use substrate_aggregator.Collections.BTreeMap
use substrate_aggregator.Collections.BTreeMap.{BTreeMap}
use substrate_aggregator.Collections.BTreeMap.Entries.{Ascends}
use substrate_aggregator.Storage.{IsListing}
use substrate_aggregator.Types
use substrate_aggregator.Types.{Pair, ProviderPair, PricePath, pair_ord}
use substrate_aggregator.Pallet.Config.{Config}
use substrate_aggregator.Pallet.State.{Amount, BestPathChangesPayload, State, Change}
use substrate_aggregator.Pallet.BestPaths.{apply_changes}
use substrate_aggregator.Pallet.Offchain.{
  done, Signer, TradeProvider, update_best_paths, BestPathCalculator, send_changes,
}
use substrate_aggregator.Pallet.Offchain.Effect.{refreshed, apply_changes-refreshes}
use substrate_aggregator.Pallet.Offchain.Loops.{AllComparable}
use substrate_aggregator.Pallet.Offchain.Changes.{select_changes-selects}

module _ {C A Public : Type 0} ⦃oc : Ord C⦄ ⦃a : Amount A⦄ (signer : Signer Public C A) where
  -- An account is there to sign, and the pool takes what it signs.
  pub record Submits : Type 0 where
    pub account : Public
    pub found : signer.any_account ≡ some account
    pub taken : (p : BestPathChangesPayload Public C A) → signer.submit p ≡ true

  send_changes-ends :
      (nonce block_number : ℕ) (changes : List (Change C A))
      → Submits
      → ((changes ≡ []) × (send_changes signer nonce block_number changes ≡ done none))
        ⊎ ((p : BestPathChangesPayload Public C A) × (send_changes signer nonce block_number changes
              ≡ done (some p)))
  unfolding send_changes
  send_changes-ends nonce block_number [] h = inl (refl, refl)
  send_changes-ends nonce block_number (x ∷ changes) h =
      let p : BestPathChangesPayload Public C A = record {
        changes = x ∷ changes;
        nonce = nonce;
        block_number = block_number;
        public = h.account;
      } in
      inr (p, rw (h.found, h.taken p) refl)

  module _ {Account : Type 0} (c : Config) (market : TradeProvider C A)
      (calculator : BestPathCalculator C A) where
    pub update_best_paths-ends :
        (x : ProviderPair C × A) (fetched : List (ProviderPair C × A))
        (stored : List (Pair C × PricePath C A)) (block_number : ℕ) (s : State Account C A)
        (new : BTreeMap (Pair C) (PricePath C A))
        → calculator.calc_best_paths (x ∷ fetched) ≡ returns (Types.ok new)
        → Ascends new
        → IsListing stored s.best_paths
        → AllComparable c.price_change_tolerance new stored
        → Submits
        → ((update_best_paths c market calculator signer (x ∷ fetched) stored block_number s
              ≡ done none)
            × ((k : Pair C)
                → s.best_paths k
                  ≡ refreshed c.price_change_tolerance (BTreeMap.get k new) (s.best_paths k)))
          ⊎ ((p : BestPathChangesPayload Public C A) × (update_best_paths c market calculator signer
                  (x ∷ fetched)
                  stored
                  block_number
                  s
                ≡ done (some p)))
    unfolding update_best_paths apply_changes
    update_best_paths-ends x fetched stored block_number s new calculated asc lists comparable
          submits =
        let tolerance = c.price_change_tolerance in
        let (changes, selected, _) =
          select_changes-selects tolerance s.best_paths new stored lists asc comparable in
        elim (send_changes-ends s.unsigned_tx_nonce block_number changes submits) [
          | inl (nothing, e) ↦ inl (
            rw (calculated, selected) e,
            λ k.
                ap (λ cs. (apply_changes cs s.best_paths []).0 k) (sym nothing)
                ∙ apply_changes-refreshes tolerance s.best_paths new stored changes k lists asc
                    selected,
          )
          | inr (p, e) ↦ inr (p, rw (calculated, selected) e)
        ]
