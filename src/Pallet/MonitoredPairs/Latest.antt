-- ===== src/Pallet/MonitoredPairs/Latest.antt =====
-- pallets/aggregator/src/lib.rs: which pairs `submit_monitored_pairs` leaves monitored.
use mathlib.Core.List.{reverse-append, reverse-reverse}
use substrate_aggregator.Prelude.{
  ◌≡◌, refl, ap, sym, ◌∙◌, ◌≢◌, Option, none, some, List, [], ◌∷◌, ◌++◌, reverse, arith, All,
  if◌then◌else◌,
}
use substrate_aggregator.Ord.{Ord, ◌==◌, ==_iff, ==_refl}
use substrate_aggregator.Collections.BTreeSet
use substrate_aggregator.Collections.BTreeSet.{BTreeSet, contains-insert}
use substrate_aggregator.Storage.{Storage, write_lem}
use substrate_aggregator.Types.{
  ProviderPair, ProviderPairOperation, Operation, add, del, provider_pair_ord,
}
use substrate_aggregator.Pallet.State.{Origins, PairEntry, ok, State}
use substrate_aggregator.Pallet.MonitoredPairs.{
  change_member, keep_unseen, dedupe, apply_operations, noted, submit_monitored_pairs,
}

-- What an operation asks for.
abbrev pub requested : Operation → Option (Unit {0})
requested add = some tt
requested del = none

change_member_lem : (p : Operation) (old : Option (Unit {0})) → change_member p old ≡ requested p
unfolding change_member
change_member_lem add none = refl
change_member_lem add (some u) = refl
change_member_lem del old = refl

module _ {C : Type 0} ⦃o : Ord C⦄ where
  -- Whether a pair is monitored after the operations, one after the other, with no deduplication.
  unfoldable pub outcome :
      List (ProviderPairOperation C) → ProviderPair C → Option (Unit {0}) → Option (Unit {0})
  outcome [] k d = d
  outcome (op ∷ ops) k d =
      outcome ops k (if op.provider_pair == k then requested op.operation else d)

  -- The same, for the operations in reversed order.
  first_request :
      List (ProviderPairOperation C) → ProviderPair C → Option (Unit {0}) → Option (Unit {0})
  first_request [] k d = d
  first_request (op ∷ ops) k d =
      if op.provider_pair == k then requested op.operation else first_request ops k d

  outcome-append :
      (xs ys : List (ProviderPairOperation C)) (k : ProviderPair C) (d : Option (Unit {0}))
      → outcome (xs ++ ys) k d ≡ outcome ys k (outcome xs k d)
  unfolding outcome
  outcome-append [] ys k d = refl
  outcome-append (x ∷ xs) ys k d = outcome-append xs ys k _

  outcome-reverse :
      (l : List (ProviderPairOperation C)) (k : ProviderPair C) (d : Option (Unit {0}))
      → outcome (reverse l) k d ≡ first_request l k d
  unfolding outcome first_request
  outcome-reverse [] k d = refl
  outcome-reverse (x ∷ l) k d =
      ap (λ r. outcome r k d) (reverse-append (x ∷ []) l)
      ∙ (outcome-append (reverse l) (x ∷ []) k d ∙ rw (outcome-reverse l k d))

  first_request-keep_unseen :
      (l : List (ProviderPairOperation C)) (seen : BTreeSet (ProviderPair C)) (k : ProviderPair C)
      (d : Option (Unit {0}))
      → first_request (keep_unseen l seen) k d
        ≡ (if BTreeSet.contains k seen then d else first_request l k d)
  unfolding first_request keep_unseen
  first_request-keep_unseen [] seen k d = ground arith
  first_request-keep_unseen (x ∷ l) seen k d = ground (
    arith,
    first_request-keep_unseen l (BTreeSet.insert x.provider_pair seen) k d,
    contains-insert x.provider_pair k seen,
    ==_iff x.provider_pair k,
  )

  outcome-dedupe :
      (ops : List (ProviderPairOperation C)) (k : ProviderPair C) (d : Option (Unit {0}))
      → outcome (dedupe ops) k d ≡ outcome ops k d
  unfolding dedupe BTreeSet.contains
  outcome-dedupe ops k d =
      outcome-reverse (keep_unseen (reverse ops) []) k d
      ∙ (first_request-keep_unseen (reverse ops) [] k d
          ∙ (sym (outcome-reverse (reverse ops) k d)
              ∙ ap (λ l. outcome l k d) (reverse-reverse ops)))

  pub apply_operations-outcome :
      (ops : List (ProviderPairOperation C)) (m : Storage (ProviderPair C) (Unit {0}))
      (es : List (PairEntry C)) (k : ProviderPair C)
      → (apply_operations ops m es).0 k ≡ outcome ops k (m k)
  unfolding apply_operations outcome
  apply_operations-outcome [] m es k = refl
  apply_operations-outcome (op ∷ ops) m es k =
      apply_operations-outcome ops _ _ k
      ∙ ap (outcome ops k) (
          write_lem op.provider_pair k _ m
          ∙ ap (λ v. if op.provider_pair == k then v else m k)
              (change_member_lem op.operation (m op.provider_pair)))

  outcome-untouched :
      (ops : List (ProviderPairOperation C)) (k : ProviderPair C) (d : Option (Unit {0}))
      → All (λ op. op.provider_pair ≢ k) ops
      → outcome ops k d ≡ d
  unfolding outcome
  outcome-untouched [] k d h = refl
  outcome-untouched (op ∷ ops) k d h =
      outcome-untouched ops k _ h.1 ∙ ground (arith, ==_iff op.provider_pair k)

  outcome-latest :
      (op : ProviderPairOperation C) (xs ys : List (ProviderPairOperation C))
      (d : Option (Unit {0}))
      → All (λ x. x.provider_pair ≢ op.provider_pair) ys
      → outcome (xs ++ op ∷ ys) op.provider_pair d ≡ requested op.operation
  unfolding outcome
  outcome-latest op [] ys d h =
      outcome-untouched ys op.provider_pair _ h ∙ rw (==_refl op.provider_pair)
  outcome-latest op (x ∷ xs) ys d h = outcome-latest op xs ys _ h

  module _ {A Account : Type 0} where
    pub monitored_pairs-noted :
        (r : Storage (ProviderPair C) (Unit {0}) × List (PairEntry C)) (s : State Account C A)
        → (noted r s).monitored_pairs ≡ r.0
    monitored_pairs-noted r s = ground arith

    pub submit_monitored_pairs-ok :
        (f : Origins Account) (origin : f.Origin) (ops : List (ProviderPairOperation C))
        (s : State Account C A) {s' : State Account C A}
        → submit_monitored_pairs f origin ops s ≡ ok s'
        → s' ≡ noted (apply_operations (dedupe ops) s.monitored_pairs []) s
    unfolding submit_monitored_pairs
    submit_monitored_pairs-ok f origin ops s accepted = ground arith

    -- Deduplication decides nothing: after an accepted submission exactly those pairs are
    -- monitored that would be if every operation had been applied, in the order given.
    pub monitored_pairs-outcome :
        (f : Origins Account) (origin : f.Origin) (ops : List (ProviderPairOperation C))
        (s : State Account C A) {s' : State Account C A} (k : ProviderPair C)
        → submit_monitored_pairs f origin ops s ≡ ok s'
        → s'.monitored_pairs k ≡ outcome ops k (s.monitored_pairs k)
    monitored_pairs-outcome f origin ops s k accepted =
        let r = apply_operations (dedupe ops) s.monitored_pairs [] in
        rw (submit_monitored_pairs-ok f origin ops s accepted, monitored_pairs-noted r s)
          (apply_operations-outcome (dedupe ops) s.monitored_pairs [] k
            ∙ outcome-dedupe ops k (s.monitored_pairs k))

    -- After an accepted submission a pair is monitored if the last operation that names it adds
    -- it, and is not monitored if that operation deletes it.
    monitored_pairs-latest :
        (f : Origins Account) (origin : f.Origin) (ops : List (ProviderPairOperation C))
        (s : State Account C A) {s' : State Account C A} (op : ProviderPairOperation C)
        (xs ys : List (ProviderPairOperation C))
        → submit_monitored_pairs f origin ops s ≡ ok s'
        → ops ≡ xs ++ op ∷ ys
        → All (λ x. x.provider_pair ≢ op.provider_pair) ys
        → s'.monitored_pairs op.provider_pair ≡ requested op.operation
    monitored_pairs-latest f origin ops s op xs ys accepted e h =
        monitored_pairs-outcome f origin ops s op.provider_pair accepted
        ∙ rw e (outcome-latest op xs ys _ h)
