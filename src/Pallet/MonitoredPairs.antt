-- ===== src/Pallet/MonitoredPairs.antt =====
-- pallets/aggregator/src/lib.rs: `submit_monitored_pairs`, which adds and removes the pairs to watch.
pub mod Latest
pub mod Deduped
pub mod Journal
use substrate_aggregator.Prelude.{Option, none, some, List, [], ◌∷◌, ◌++◌, reverse, if◌then◌else◌}
use substrate_aggregator.Ord.{Ord}
use substrate_aggregator.Collections.BTreeSet
use substrate_aggregator.Collections.BTreeSet.{BTreeSet}
use substrate_aggregator.Storage.{Storage, write}
use substrate_aggregator.Types.{
  ProviderPair, ProviderPairOperation, Operation, add, del, provider_pair_ord,
}
use substrate_aggregator.Pallet.State.{
  Origins, PairEntry, monitored_pairs_submitted, bad_origin, Result, ok, err, State, deposit_event,
}

-- What the closure of `mutate_exists` leaves in the map.
unfoldable pub change_member : Operation → Option (Unit {0}) → Option (Unit {0})
change_member add none = some tt
change_member add (some u) = some u
change_member del exists_indicator = none

module _ {C : Type 0} where
  abbrev pub entry : ProviderPair C → Operation → PairEntry C
  entry k operation = (k.pair.source, k.pair.target, k.provider, operation)

  -- What it pushes on the event payload.
  unfoldable pub member_entry : ProviderPair C → Operation → Option (Unit {0}) → List (PairEntry C)
  member_entry k add none = entry k add ∷ []
  member_entry k add (some u) = []
  member_entry k del none = []
  member_entry k del (some u) = entry k del ∷ []

module _ {C : Type 0} ⦃o : Ord C⦄ where
  -- The first loop, over the reversed operations: the pairs already seen are dropped.
  unfoldable pub keep_unseen :
      List (ProviderPairOperation C) → BTreeSet (ProviderPair C) → List (ProviderPairOperation C)
  keep_unseen [] uniques = []
  keep_unseen (op ∷ ops) uniques =
      let rest = keep_unseen ops (BTreeSet.insert op.provider_pair uniques) in
      if BTreeSet.contains op.provider_pair uniques then rest else op ∷ rest

  unfoldable pub dedupe : List (ProviderPairOperation C) → List (ProviderPairOperation C)
  dedupe ops = reverse (keep_unseen (reverse ops) [])

  -- The second loop.
  unfoldable pub apply_operations :
      List (ProviderPairOperation C)
      → Storage (ProviderPair C) (Unit {0})
      → List (PairEntry C)
      → Storage (ProviderPair C) (Unit {0}) × List (PairEntry C)
  apply_operations [] pairs payload = (pairs, payload)
  apply_operations (op ∷ ops) pairs payload =
      let old = pairs op.provider_pair in
      apply_operations ops (write op.provider_pair (change_member op.operation old) pairs)
        (payload ++ member_entry op.provider_pair op.operation old)

  module _ {A Account : Type 0} where
    abbrev pub noted :
        Storage (ProviderPair C) (Unit {0}) × List (PairEntry C)
        → State Account C A
        → State Account C A
    noted (pairs, []) s = record s { monitored_pairs = pairs }
    noted (pairs, e ∷ payload) s =
        deposit_event (monitored_pairs_submitted (e ∷ payload))
          (record s { monitored_pairs = pairs })

    unfoldable pub submit_monitored_pairs :
        (f : Origins Account)
        → f.Origin
        → List (ProviderPairOperation C)
        → State Account C A
        → Result (State Account C A)
    submit_monitored_pairs f origin operations s =
        if f.ensure_root origin
        then ok (noted (apply_operations (dedupe operations) s.monitored_pairs []) s)
        else err bad_origin
