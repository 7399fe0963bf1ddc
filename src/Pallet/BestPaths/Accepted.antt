-- ===== src/Pallet/BestPaths/Accepted.antt =====
-- pallets/aggregator/src/lib.rs: which submissions `ocw_submit_best_paths_changes` accepts, and
-- what an accepted one does.
use substrate_aggregator.Prelude.{◌≡◌, ◌↔◌, true, List, [], arith}
use substrate_aggregator.Ord.{Ord, nat_ord}
use substrate_aggregator.Storage.{Storage}
use substrate_aggregator.Types.{Pair, PricePath}
use substrate_aggregator.Pallet.State.{
  Amount, Origins, BestPathChangesPayload, PriceEntry, stale_unsigned_tx_error, pallet_error, ok,
  err, State,
}
use substrate_aggregator.Pallet.BestPaths.{
  apply_changes, submitted, next_nonce, ocw_submit_best_paths_changes,
}

module _ {C A Account : Type 0} ⦃a : Amount A⦄ where
  module _ (r : Storage (Pair C) (PricePath C A) × List (PriceEntry C A))
      (s : State Account C A) where
    pub best_paths-submitted : (submitted r s).best_paths ≡ r.0
    best_paths-submitted = ground arith

    nonce-submitted : (submitted r s).unsigned_tx_nonce ≡ next_nonce s.unsigned_tx_nonce
    nonce-submitted = ground arith

module _ {C A Account Public : Type 0} ⦃a : Amount A⦄ ⦃o : Ord C⦄ (f : Origins Account)
    (origin : f.Origin) (p : BestPathChangesPayload Public C A) (s : State Account C A) where
  pub ocw_submit-ok :
      {s' : State Account C A}
      → ocw_submit_best_paths_changes f origin p s ≡ ok s'
      → s' ≡ submitted (apply_changes p.changes s.best_paths []) s
  unfolding ocw_submit_best_paths_changes
  ocw_submit-ok accepted = ground arith

  pub best_paths-ocw_submit :
      {s' : State Account C A}
      → ocw_submit_best_paths_changes f origin p s ≡ ok s'
      → s'.best_paths ≡ (apply_changes p.changes s.best_paths []).0
  best_paths-ocw_submit accepted = rw (ocw_submit-ok accepted) (best_paths-submitted _ s)

  pub nonce-ocw_submit :
      {s' : State Account C A}
      → ocw_submit_best_paths_changes f origin p s ≡ ok s'
      → (s.unsigned_tx_nonce ≡ p.nonce) × (s'.unsigned_tx_nonce ≡ next_nonce s.unsigned_tx_nonce)
  unfolding ocw_submit_best_paths_changes
  nonce-ocw_submit accepted = ground arith

  pub whitelist-ocw_submit :
      {s' : State Account C A}
      → ocw_submit_best_paths_changes f origin p s ≡ ok s'
      → s'.whitelisted_offchain_authorities ≡ s.whitelisted_offchain_authorities
  unfolding ocw_submit_best_paths_changes
  whitelist-ocw_submit accepted = ground arith

  -- Log lines aside, which may panic, a submission is accepted exactly if its origin is none and
  -- its nonce is the current one.
  pub accepted_iff :
      ((s' : State Account C A) × (ocw_submit_best_paths_changes f origin p s ≡ ok s'))
      ↔ ((f.ensure_none origin ≡ true) × (s.unsigned_tx_nonce ≡ p.nonce))
  unfolding ocw_submit_best_paths_changes
  accepted_iff = (
    λ h. ground (arith, h.1),
    λ h. (submitted (apply_changes p.changes s.best_paths []) s, ground arith),
  )

  pub stale_of_ne :
      f.ensure_none origin ≡ true
      → (s.unsigned_tx_nonce ≡ p.nonce → ⊥)
      → ocw_submit_best_paths_changes f origin p s ≡ err (pallet_error stale_unsigned_tx_error)
  unfolding ocw_submit_best_paths_changes
  stale_of_ne h n = ground arith
