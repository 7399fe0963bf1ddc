-- ===== src/Pallet/BestPaths/Latest.antt =====
-- pallets/aggregator/src/lib.rs: which path `ocw_submit_best_paths_changes` leaves for a pair.
use substrate_aggregator.Prelude.{
  ◌≡◌, refl, ◌∙◌, ◌≢◌, Option, none, some, List, [], ◌∷◌, ◌++◌, arith, All,
}
use substrate_aggregator.Ord.{Ord}
use substrate_aggregator.Storage.{Storage, write_self, write-ne}
use substrate_aggregator.Types.{Pair, PricePath, pair_ord}
use substrate_aggregator.Pallet.State.{
  Amount, Origins, Change, BestPathChangesPayload, PriceEntry, ok, State,
}
use substrate_aggregator.Pallet.BestPaths.{
  pair_of, change_path, apply_changes, next_nonce, ocw_submit_best_paths_changes,
}
use substrate_aggregator.Pallet.BestPaths.Accepted.{best_paths-ocw_submit}

-- Every change names another pair.
abbrev pub NoneNames : {C A : Type 0} → Pair C → List (Change C A) → Type 0
NoneNames k = All (λ c. pair_of c ≢ k)

pub change_path_lem :
    {C A : Type 0} (c : Change C A) (old : Option (PricePath C A)) → change_path c old ≡ c.2
unfolding change_path
change_path_lem (s, t, none) old = refl
change_path_lem (s, t, some p) old = refl

module _ {C A : Type 0} ⦃a : Amount A⦄ ⦃o : Ord C⦄ where
  apply_changes-untouched :
      (k : Pair C) (cs : List (Change C A)) (m : Storage (Pair C) (PricePath C A))
      (es : List (PriceEntry C A))
      → NoneNames k cs
      → (apply_changes cs m es).0 k ≡ m k
  unfolding apply_changes
  apply_changes-untouched k [] m es h = refl
  apply_changes-untouched k (c ∷ cs) m es h =
      apply_changes-untouched k cs _ _ h.1 ∙ write-ne (pair_of c) k _ m h.0

  apply_changes-latest :
      (c : Change C A) (xs ys : List (Change C A)) (m : Storage (Pair C) (PricePath C A))
      (es : List (PriceEntry C A))
      → NoneNames (pair_of c) ys
      → (apply_changes (xs ++ c ∷ ys) m es).0 (pair_of c) ≡ c.2
  unfolding apply_changes
  apply_changes-latest c [] ys m es h =
      apply_changes-untouched (pair_of c) ys _ _ h
      ∙ (write_self (pair_of c) _ m ∙ change_path_lem c (m (pair_of c)))
  apply_changes-latest c (x ∷ xs) ys m es h = apply_changes-latest c xs ys _ _ h

  -- After an accepted submission a pair holds what the last change that names it asks for: the
  -- path, or nothing if that change is a removal.
  pub best_paths-latest :
      {Account Public : Type 0} (f : Origins Account) (origin : f.Origin)
      (p : BestPathChangesPayload Public C A) (s : State Account C A) {s' : State Account C A}
      (c : Change C A) (xs ys : List (Change C A))
      → ocw_submit_best_paths_changes f origin p s ≡ ok s'
      → p.changes ≡ xs ++ c ∷ ys
      → NoneNames (pair_of c) ys
      → s'.best_paths (pair_of c) ≡ c.2
  best_paths-latest f origin p s c xs ys accepted e h =
      rw (best_paths-ocw_submit f origin p s accepted, e)
        (apply_changes-latest c xs ys s.best_paths [] h)

  -- After an accepted submission a pair that no change names holds what it held; the monitored
  -- pairs and the whitelist are as they were, and the nonce is bumped.
  pub best_paths-untouched :
      {Account Public : Type 0} (f : Origins Account) (origin : f.Origin)
      (p : BestPathChangesPayload Public C A) (s : State Account C A) {s' : State Account C A}
      (k : Pair C)
      → ocw_submit_best_paths_changes f origin p s ≡ ok s'
      → NoneNames k p.changes
      → (s'.best_paths k ≡ s.best_paths k)
        × (s'.monitored_pairs ≡ s.monitored_pairs)
        × (s'.whitelisted_offchain_authorities ≡ s.whitelisted_offchain_authorities)
        × (s'.unsigned_tx_nonce ≡ next_nonce s.unsigned_tx_nonce)
  unfolding ocw_submit_best_paths_changes
  best_paths-untouched f origin p s k accepted h = ground (
    arith,
    best_paths-ocw_submit f origin p s accepted,
    apply_changes-untouched k p.changes s.best_paths [] h,
  )
