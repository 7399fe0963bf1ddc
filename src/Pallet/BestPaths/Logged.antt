-- ===== src/Pallet/BestPaths/Logged.antt =====
-- pallets/aggregator/src/lib.rs: `ocw_submit_best_paths_changes` with its log lines, which print the
-- currencies of a pair as texts, and so panic at one that has no text.
use substrate_aggregator.Prelude.{
  Option, none, some, List, [], ◌∷◌, Bool, true, false, Outcome, returns, then_run,
}
use substrate_aggregator.Ord.{Ord, nat_ord}
use substrate_aggregator.Storage.{Storage, write}
use substrate_aggregator.Types.{Pair, PricePath, pair_ord}
use substrate_aggregator.Types.Conversions.{Conversions}
use substrate_aggregator.Pallet.State.{
  Amount, Origins, Change, BestPathChangesPayload, Result, ok, err, State,
}
use substrate_aggregator.Pallet.BestPaths.{pair_of, change_path, ocw_submit_best_paths_changes}

-- A result with the lines that are written on the way to it.
abbrev pub with_lines :
    {S : Type 0} → (info : Bool) → Outcome (Unit {0}) → Result S → Outcome (Result S)
with_lines info lines (err e) = returns (err e)
with_lines true lines (ok s) = then_run lines λ _. returns (ok s)
with_lines false lines (ok s) = returns (ok s)

module _ {C : Type 0} ⦃cv : Conversions C⦄ where
  -- The texts of both currencies.
  abbrev pub log_line : C → C → Outcome (Unit {0})
  log_line source target =
      then_run (cv.to_str source) λ _. then_run (cv.to_str target) λ _. returns tt

module _ {C A : Type 0} ⦃cv : Conversions C⦄ where
  -- The line of one change: none at the removal of a path that is not there.
  unfoldable pub log_change : Change C A → Option (PricePath C A) → Outcome (Unit {0})
  log_change (source, target, some path) old = log_line source target
  log_change (source, target, none) (some old) = log_line source target
  log_change (source, target, none) none = returns tt

  module _ ⦃o : Ord C⦄ where
    -- The lines of the loop over the changes.
    unfoldable pub log_changes :
        List (Change C A) → Storage (Pair C) (PricePath C A) → Outcome (Unit {0})
    log_changes [] paths = returns tt
    log_changes (c ∷ changes) paths =
        let old = paths (pair_of c) in
        let rest = log_changes changes (write (pair_of c) (change_path c old) paths) in
        then_run (log_change c old) λ _. rest

    module _ ⦃a : Amount A⦄ {Account Public : Type 0} (f : Origins Account) where
      -- `info` says whether lines of that level are written; if not, they are not evaluated. The
      -- handler logs only in the loop, after which it does not fail, and a panic leaves no state
      -- behind.
      unfoldable pub submit_with_logs :
          (info : Bool)
          → f.Origin
          → BestPathChangesPayload Public C A
          → State Account C A
          → Outcome (Result (State Account C A))
      submit_with_logs info origin payload s =
          with_lines info (log_changes payload.changes s.best_paths)
            (ocw_submit_best_paths_changes f origin payload s)
