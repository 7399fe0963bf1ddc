-- ===== src/Pallet/BestPaths/Readable.antt =====
-- pallets/aggregator/src/lib.rs: which submissions `ocw_submit_best_paths_changes` accepts and at which it
-- panics, its log lines included.
use substrate_aggregator.Prelude.{
  ◌≡◌, refl, ap, ◌∙◌, ◌↔◌, ◌⊎◌, inl, inr, List, Bool, true, false, returns, panics, Bool-cases,
}
use substrate_aggregator.Ord.{Ord, nat_ord}
use substrate_aggregator.Storage.{Storage}
use substrate_aggregator.Types.{Pair, PricePath, pair_ord}
use substrate_aggregator.Types.Conversions.{Conversions}
use substrate_aggregator.Pallet.State.{
  Amount, Origins, Change, BestPathChangesPayload, Result, ok, err, DispatchError, State,
}
use substrate_aggregator.Pallet.BestPaths.{ocw_submit_best_paths_changes}
use substrate_aggregator.Pallet.BestPaths.Accepted.{accepted_iff}
use substrate_aggregator.Pallet.BestPaths.Logged.{log_changes, with_lines, submit_with_logs}
use substrate_aggregator.Pallet.BestPaths.Lines.{
  Read, Unread, AllRead, SomeUnread, log_changes-cases,
}

Result-cases :
    {S : Type 0} (x : Result S) → ((s : S) × (x ≡ ok s)) ⊎ ((e : DispatchError) × (x ≡ err e))
Result-cases (ok s) = inl (s, refl)
Result-cases (err e) = inr (e, refl)

module _ {C A : Type 0} ⦃cv : Conversions C⦄ where
  module _ ⦃o : Ord C⦄ ⦃a : Amount A⦄ where
    Read-Unread : (c : Change C A) → Read c → Unread c → ⊥
    Read-Unread c (s, t, e, e') (inl u) = absurd (cc)
    Read-Unread c (s, t, e, e') (inr u) = absurd (cc)

    AllRead-SomeUnread :
        (cs : List (Change C A)) (m : Storage (Pair C) (PricePath C A))
        → AllRead cs m
        → SomeUnread cs m
        → ⊥
    AllRead-SomeUnread cs m reads (xs, c, ys, e, logged, unread) =
        Read-Unread c (reads xs c ys e logged) unread

    module _ {Account Public : Type 0} (f : Origins Account) (info : Bool) (origin : f.Origin)
        (p : BestPathChangesPayload Public C A) (s : State Account C A) where
      refused :
          (e : DispatchError)
          → ocw_submit_best_paths_changes f origin p s ≡ err e
          → submit_with_logs f info origin p s ≡ returns (err e)
      unfolding submit_with_logs
      refused e h = ap (with_lines info (log_changes p.changes s.best_paths)) h

      passed :
          (s' : State Account C A)
          → ocw_submit_best_paths_changes f origin p s ≡ ok s'
          → (info ≡ false) ⊎ (log_changes p.changes s.best_paths ≡ returns tt)
          → submit_with_logs f info origin p s ≡ returns (ok s')
      unfolding submit_with_logs
      passed s' h ends =
          ap (with_lines info (log_changes p.changes s.best_paths)) h ∙ elim (Bool-cases info) [
            | inl e ↦ elim ends [ inl quiet ↦ rw quiet refl | inr read ↦ rw (e, read) refl ]
            | inr e ↦ rw e refl
          ]

      stopped :
          (s' : State Account C A)
          → ocw_submit_best_paths_changes f origin p s ≡ ok s'
          → info ≡ true
          → log_changes p.changes s.best_paths ≡ panics
          → submit_with_logs f info origin p s ≡ panics
      unfolding submit_with_logs
      stopped s' h written unread =
          ap (with_lines info (log_changes p.changes s.best_paths)) h ∙ rw (written, unread) refl

      abbrev Guards : Type 0
      Guards = (f.ensure_none origin ≡ true) × (s.unsigned_tx_nonce ≡ p.nonce)

      -- The three ways in which the handler ends.
      submit-cases :
          ((e : DispatchError) × (submit_with_logs f info origin p s ≡ returns (err e))
            × (Guards → ⊥))
          ⊎ (((s' : State Account C A) × (submit_with_logs f info origin p s ≡ returns (ok s'))
                × Guards
                × (info ≡ true → AllRead p.changes s.best_paths))
              ⊎ ((submit_with_logs f info origin p s ≡ panics)
                  × Guards
                  × (info ≡ true)
                  × SomeUnread p.changes s.best_paths))
      submit-cases = elim (Result-cases (ocw_submit_best_paths_changes f origin p s)) [
        | inr (e, h) ↦ inl (
          e,
          refused e h,
          λ guards. let (s', h') = (accepted_iff f origin p s).1 guards in absurd (cc),
        )
        | inl (s', h) ↦
            let guards = (accepted_iff f origin p s).0 (s', h) in
            elim (log_changes-cases p.changes s.best_paths) [
              | inl (read, reads) ↦ inr (inl (s', passed s' h (inr read), guards, λ written. reads))
              | inr (unread, some_unread) ↦ elim (Bool-cases info) [
                | inl e ↦ inr (inr (stopped s' h e unread, guards, e, some_unread))
                | inr e ↦ inr (inl (s', passed s' h (inl e), guards, λ written. absurd (cc)))
              ]
            ]
      ]

      -- What the handler does, its log lines included. A submission is accepted exactly if its origin is
      -- none, its nonce is the current one, and, where lines of the level info are written, both currencies
      -- of every change that gets a line have texts. It panics exactly if the first two hold, such lines
      -- are written, and a currency of a change that gets one has no text. A change gets a line if it asks
      -- for a path, or if its pair holds a path after the changes before it.
      pub submit_with_logs_iff :
          (((s' : State Account C A) × (submit_with_logs f info origin p s ≡ returns (ok s'))) ↔ (
            (f.ensure_none origin ≡ true)
            × (s.unsigned_tx_nonce ≡ p.nonce)
            × (info ≡ true → AllRead p.changes s.best_paths)))
          × ((submit_with_logs f info origin p s ≡ panics) ↔ (
              (f.ensure_none origin ≡ true)
              × (s.unsigned_tx_nonce ≡ p.nonce)
              × (info ≡ true)
              × SomeUnread p.changes s.best_paths))
      submit_with_logs_iff = elim submit-cases [
        | inl (e, h, unguarded) ↦ (
          (
            λ (s', h'). absurd (cc),
            λ (none_origin, nonce, reads). absurd (unguarded (none_origin, nonce)),
          ),
          (
            λ h'. absurd (cc),
            λ (none_origin, nonce, written, unread). absurd (unguarded (none_origin, nonce)),
          ),
        )
        | inr (inl (s', h, (none_origin, nonce), reads)) ↦ (
          (λ accepted. (none_origin, nonce, reads), λ guards. (s', h)),
          (
            λ h'. absurd (cc),
            λ (_, _, written, unread).
                absurd (AllRead-SomeUnread p.changes s.best_paths (reads written) unread),
          ),
        )
        | inr (inr (h, (none_origin, nonce), written, unread)) ↦ (
          (
            λ (s', h'). absurd (cc),
            λ (_, _, reads).
                absurd (AllRead-SomeUnread p.changes s.best_paths (reads written) unread),
          ),
          (λ h'. (none_origin, nonce, written, unread), λ guards. h),
        )
      ]
