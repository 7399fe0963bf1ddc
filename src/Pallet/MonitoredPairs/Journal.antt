-- ===== src/Pallet/MonitoredPairs/Journal.antt =====
-- pallets/aggregator/src/lib.rs: what the event of `submit_monitored_pairs` tells.
use mathlib.Core.List.{append_assoc, append-nil}
use substrate_aggregator.Prelude.{
  ◌≡◌, refl, ap, subst, sym, ◌∙◌, ◌≢◌, ◌⊎◌, inl, inr, Option, none, some, List, [], ◌∷◌, ◌++◌, All,
}
use substrate_aggregator.Ord.{Ord}
use substrate_aggregator.Storage.{Storage, write, write-same}
use substrate_aggregator.Types.{
  ProviderPair, ProviderPairOperation, Operation, add, del, provider_pair_ord,
}
use substrate_aggregator.Pallet.State.{Origins, PairEntry, monitored_pairs_submitted, ok, State}
use substrate_aggregator.Pallet.MonitoredPairs.{
  entry, change_member, member_entry, dedupe, apply_operations, noted, submit_monitored_pairs,
}
use substrate_aggregator.Pallet.MonitoredPairs.Latest.{
  requested, submit_monitored_pairs-ok, monitored_pairs-noted,
}
use substrate_aggregator.Pallet.MonitoredPairs.Deduped.{DistinctPairs, dedupe-DistinctPairs}

abbrev pub named : {C : Type 0} → PairEntry C → ProviderPair C
named (s, t, provider, _) = record { pair = record { source = s; target = t }; provider = provider }

abbrev pub asked : {C : Type 0} → PairEntry C → Option (Unit {0})
asked (s, t, provider, operation) = requested operation

-- No two of the entries name one pair.
abbrev pub Distinct : {C : Type 0} → List (PairEntry C) → Type 0
Distinct [] = Unit
Distinct (e ∷ es) = All (λ x. named x ≢ named e) es × Distinct es

module _ {C : Type 0} ⦃o : Ord C⦄ where
  -- A reader of the event follows its entries in order.
  pub follow :
      List (PairEntry C) → Storage (ProviderPair C) (Unit {0}) → Storage (ProviderPair C) (Unit {0})
  follow [] m = m
  follow (e ∷ es) m = follow es (write (named e) (asked e) m)

  -- Each entry tells of a change: a pair that was not there is added, or one that was there is
  -- removed.
  pub Flips : List (PairEntry C) → Storage (ProviderPair C) (Unit {0}) → Type 0
  Flips [] m = Unit
  Flips (e ∷ es) m = (m (named e) ≢ asked e) × Flips es (write (named e) (asked e) m)

  -- The entry of one operation, and the rest of the payload.
  payload-apply_operations :
      (ops : List (ProviderPairOperation C)) (m : Storage (ProviderPair C) (Unit {0}))
      (es : List (PairEntry C))
      → ((apply_operations ops m es).0 ≡ (apply_operations ops m []).0)
        × ((apply_operations ops m es).1 ≡ es ++ (apply_operations ops m []).1)
  unfolding apply_operations
  payload-apply_operations [] m es = (refl, sym (append-nil es))
  payload-apply_operations (op ∷ ops) m es =
      let m' = write op.provider_pair (change_member op.operation (m op.provider_pair)) m in
      let new = member_entry op.provider_pair op.operation (m op.provider_pair) in
      let (same, after) = payload-apply_operations ops m' (es ++ new) in
      let (same', after') = payload-apply_operations ops m' new in
      (same ∙ sym same', after ∙ rw after' (append_assoc es new _))

  -- What one operation does: nothing, or the change that the one entry tells of.
  abbrev Steps :
      ProviderPair C
      → List (PairEntry C)
      → Storage (ProviderPair C) (Unit {0})
      → Storage (ProviderPair C) (Unit {0})
      → Type 0
  Steps k new m m' =
      ((new ≡ []) × (m' ≡ m))
      ⊎ ((e : PairEntry C) × (new ≡ e ∷ [])
          × (named e ≡ k)
          × (m k ≢ asked e)
          × (m' ≡ write (named e) (asked e) m))

  member_entry-Steps :
      (k : ProviderPair C) (p : Operation) (m : Storage (ProviderPair C) (Unit {0}))
      (old : Option (Unit {0}))
      → m k ≡ old
      → Steps k (member_entry k p old) m (write k (change_member p old) m)
  unfolding member_entry change_member
  member_entry-Steps k add m none h = inr (entry k add, refl, refl, (λ e. cc), refl)
  member_entry-Steps k add m (some u) h = inl (refl, write-same k (some u) m h)
  member_entry-Steps k del m none h = inl (refl, write-same k none m h)
  member_entry-Steps k del m (some u) h = inr (entry k del, refl, refl, (λ e. cc), refl)

  Steps-follow :
      (k : ProviderPair C) (new rest : List (PairEntry C))
      (m m' last : Storage (ProviderPair C) (Unit {0}))
      → Steps k new m m'
      → follow rest m' ≡ last
      → Flips rest m'
      → (follow (new ++ rest) m ≡ last) × Flips (new ++ rest) m
  unfolding follow Flips
  Steps-follow k new rest m m' last (inl (e, same)) h flips = rw e (rw (← same) (h, flips))
  Steps-follow k new rest m m' last (inr (x, e, named_k, differs, wrote)) h flips = rw e (
    subst (λ z. follow rest z ≡ last) wrote h,
    (subst (λ j. m j ≢ asked x) (sym named_k) differs, subst (Flips rest) wrote flips),
  )

  follow-apply_operations :
      (ops : List (ProviderPairOperation C)) (m : Storage (ProviderPair C) (Unit {0}))
      → (follow (apply_operations ops m []).1 m ≡ (apply_operations ops m []).0)
        × Flips (apply_operations ops m []).1 m
  unfolding apply_operations follow Flips
  follow-apply_operations [] m = (refl, tt)
  follow-apply_operations (op ∷ ops) m =
      let k = op.provider_pair in
      let m' = write k (change_member op.operation (m k)) m in
      let new = member_entry k op.operation (m k) in
      let (same, pushed) = payload-apply_operations ops m' new in
      let (ih, flips) = follow-apply_operations ops m' in
      rw (pushed, same)
        (Steps-follow k new (apply_operations ops m' []).1 m m' (apply_operations ops m' []).0
          (member_entry-Steps k op.operation m (m k) refl) ih flips)

  -- One operation's entry before the others', which name other pairs.
  Steps-named :
      (k j : ProviderPair C) (new rest : List (PairEntry C))
      (m m' : Storage (ProviderPair C) (Unit {0}))
      → Steps k new m m'
      → k ≢ j
      → All (λ e. named e ≢ j) rest
      → All (λ e. named e ≢ j) (new ++ rest)
  Steps-named k j new rest m m' (inl (e, same)) differs h = rw e h
  Steps-named k j new rest m m' (inr (x, e, named_k, flips, wrote)) differs h =
      rw e (λ same. differs (sym named_k ∙ same), h)

  Steps-Distinct :
      (k : ProviderPair C) (new rest : List (PairEntry C))
      (m m' : Storage (ProviderPair C) (Unit {0}))
      → Steps k new m m'
      → All (λ e. named e ≢ k) rest
      → Distinct rest
      → Distinct (new ++ rest)
  Steps-Distinct k new rest m m' (inl (e, same)) h d = rw e d
  Steps-Distinct k new rest m m' (inr (x, e, named_k, flips, wrote)) h d =
      rw e (subst (λ j. All (λ y. named y ≢ j) rest) (sym named_k) h, d)

  -- The entries name only pairs of the operations, each at most once if those are distinct.
  payload-named :
      (ops : List (ProviderPairOperation C)) (m : Storage (ProviderPair C) (Unit {0}))
      (k : ProviderPair C)
      → All (λ x. x.provider_pair ≢ k) ops
      → All (λ e. named e ≢ k) (apply_operations ops m []).1
  unfolding apply_operations
  payload-named [] m k h = tt
  payload-named (op ∷ ops) m k h =
      let j = op.provider_pair in
      let m' = write j (change_member op.operation (m j)) m in
      let new = member_entry j op.operation (m j) in
      rw (payload-apply_operations ops m' new).1 (
        Steps-named j k new _ m m' (member_entry-Steps j op.operation m (m j) refl) h.0
          (payload-named ops m' k h.1))

  payload-Distinct :
      (ops : List (ProviderPairOperation C)) (m : Storage (ProviderPair C) (Unit {0}))
      → DistinctPairs ops
      → Distinct (apply_operations ops m []).1
  unfolding apply_operations
  payload-Distinct [] m h = tt
  payload-Distinct (op ∷ ops) m h =
      let j = op.provider_pair in
      let m' = write j (change_member op.operation (m j)) m in
      let new = member_entry j op.operation (m j) in
      rw (payload-apply_operations ops m' new).1 (
        Steps-Distinct j new _ m m' (member_entry-Steps j op.operation m (m j) refl)
          (payload-named ops m' j h.0) (payload-Distinct ops m' h.1))

  module _ {A Account : Type 0} where
    events-noted :
        (r : Storage (ProviderPair C) (Unit {0}) × List (PairEntry C)) (s : State Account C A)
        → ((r.1 ≡ []) × ((noted r s).events ≡ s.events))
          ⊎ ((r.1 ≢ []) × ((noted r s).events ≡ s.events ++ monitored_pairs_submitted r.1 ∷ []))
    events-noted (m, []) s = inl (refl, refl)
    events-noted (m, e ∷ es) s = inr (λ h. cc, refl)

    -- An accepted submission either deposits no event, and then the monitored pairs are what they
    -- were; or it deposits one event with at least one entry. Its entries name each pair at most
    -- once, each tells of a change that was made, and who follows them from the old monitored pairs
    -- has the new ones.
    pub pairs_event-follows :
        (f : Origins Account) (origin : f.Origin) (ops : List (ProviderPairOperation C))
        (s : State Account C A) {s' : State Account C A}
        → submit_monitored_pairs f origin ops s ≡ ok s'
        → ((s'.events ≡ s.events) × (s'.monitored_pairs ≡ s.monitored_pairs))
          ⊎ ((es : List (PairEntry C)) × (es ≢ [])
              × (s'.events ≡ s.events ++ monitored_pairs_submitted es ∷ [])
              × Distinct es
              × Flips es s.monitored_pairs
              × (follow es s.monitored_pairs ≡ s'.monitored_pairs))
    unfolding follow
    pairs_event-follows f origin ops s accepted =
        let r = apply_operations (dedupe ops) s.monitored_pairs [] in
        let (followed, flips) = follow-apply_operations (dedupe ops) s.monitored_pairs in
        let pairs = monitored_pairs-noted r s in
        rw (submit_monitored_pairs-ok f origin ops s accepted) (elim (events-noted r s) [
          | inl (nothing, same) ↦
              inl (same, pairs ∙ sym followed ∙ ap (λ es. follow es s.monitored_pairs) nothing)
          | inr (pushed, new) ↦ inr (
            r.1,
            pushed,
            new,
            payload-Distinct (dedupe ops) s.monitored_pairs (dedupe-DistinctPairs ops),
            flips,
            followed ∙ sym pairs,
          )
        ])
