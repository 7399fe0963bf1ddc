-- ===== src/Pallet/BestPaths.antt =====
-- pallets/aggregator/src/lib.rs: `ocw_submit_best_paths_changes`, the one call that writes prices.
pub mod Accepted
pub mod Latest
pub mod Journal
pub mod Logged
pub mod Lines
pub mod Readable
use substrate_aggregator.Prelude.{
  ℕ, ◌+◌, ◌^◌, ◌%◌, Option, none, some, Bool, List, [], ◌∷◌, ◌++◌, if◌then◌else◌,
}
use substrate_aggregator.Ord.{Ord, ◌==◌, nat_ord}
use substrate_aggregator.Storage.{Storage, write}
use substrate_aggregator.Types.{Pair, PricePath, Operation, add, del, pair_ord}
use substrate_aggregator.Pallet.State.{
  Amount, Origins, Change, BestPathChangesPayload, PriceEntry, best_prices_submitted,
  stale_unsigned_tx_error, bad_origin, pallet_error, Result, ok, err, State, deposit_event,
}

-- `u64` addition.
abbrev pub next_nonce : ℕ → ℕ
next_nonce n = (n + 1) % 2 ^ 64

abbrev pub pair_of : {C A : Type 0} → Change C A → Pair C
pair_of (source, target, _) = record { source = source; target = target }

-- What the closure of `mutate_exists` leaves in the map.
unfoldable pub change_path :
    {C A : Type 0} → Change C A → Option (PricePath C A) → Option (PricePath C A)
change_path (source, target, some path) old = some path
change_path (source, target, none) old = none

module _ {C A : Type 0} ⦃a : Amount A⦄ where
  -- What it pushes on the event payload.
  unfoldable pub change_entry : Change C A → Option (PricePath C A) → List (PriceEntry C A)
  change_entry (source, target, some path) old = (source, target, path.total_cost, add) ∷ []
  change_entry (source, target, none) (some old) = (source, target, a.default, del) ∷ []
  change_entry (source, target, none) none = []

  -- The nonce is bumped, and an event is deposited only if something was added or removed.
  abbrev pub submitted :
      {Account : Type 0}
      → Storage (Pair C) (PricePath C A) × List (PriceEntry C A)
      → State Account C A
      → State Account C A
  submitted (paths, []) s = record s {
    best_paths = paths;
    unsigned_tx_nonce = next_nonce s.unsigned_tx_nonce;
  }
  submitted (paths, e ∷ payload) s =
      deposit_event (best_prices_submitted (e ∷ payload))
        (record s { best_paths = paths; unsigned_tx_nonce = next_nonce s.unsigned_tx_nonce })

  module _ ⦃o : Ord C⦄ where
    -- The loop over the changes, with the map and the event payload that it builds.
    unfoldable pub apply_changes :
        List (Change C A)
        → Storage (Pair C) (PricePath C A)
        → List (PriceEntry C A)
        → Storage (Pair C) (PricePath C A) × List (PriceEntry C A)
    apply_changes [] paths payload = (paths, payload)
    apply_changes (c ∷ changes) paths payload =
        let old = paths (pair_of c) in
        apply_changes changes (write (pair_of c) (change_path c old) paths)
          (payload ++ change_entry c old)

    -- The handler without its log lines, which Logged adds.
    module _ {Account Public : Type 0} (f : Origins Account) where
      unfoldable pub ocw_submit_best_paths_changes :
          f.Origin
          → BestPathChangesPayload Public C A
          → State Account C A
          → Result (State Account C A)
      ocw_submit_best_paths_changes origin payload s =
          if f.ensure_none origin
          then (if s.unsigned_tx_nonce == payload.nonce
              then ok (submitted (apply_changes payload.changes s.best_paths []) s)
              else err (pallet_error stale_unsigned_tx_error))
          else err bad_origin
