-- ===== src/Pallet/MonitoredPairs/Deduped.antt =====
-- pallets/aggregator/src/lib.rs: deduplication leaves one operation for each pair.
use mathlib.Core.List.{reverse-append}
use mathlib.Core.Bool.{false≢true}
use substrate_aggregator.Prelude.{
  ◌≡◌, subst, sym, ◌∙◌, ◌≢◌, inl, inr, Bool, true, List, [], ◌∷◌, ◌++◌, reverse, arith, All,
  All-append, All-reverse, Bool-cases, ◌||◌,
}
use substrate_aggregator.Ord.{Ord, ==_refl}
use substrate_aggregator.Collections.BTreeSet
use substrate_aggregator.Collections.BTreeSet.{BTreeSet, contains-insert}
use substrate_aggregator.Types.{ProviderPair, ProviderPairOperation, provider_pair_ord}
use substrate_aggregator.Pallet.MonitoredPairs.{keep_unseen, dedupe}

abbrev pub DistinctPairs : {C : Type 0} → List (ProviderPairOperation C) → Type 0
DistinctPairs [] = Unit
DistinctPairs (op ∷ ops) = All (λ x. x.provider_pair ≢ op.provider_pair) ops × DistinctPairs ops

DistinctPairs-snoc :
    {C : Type 0} (xs : List (ProviderPairOperation C)) (op : ProviderPairOperation C)
    → DistinctPairs xs
    → All (λ x. x.provider_pair ≢ op.provider_pair) xs
    → DistinctPairs (xs ++ op ∷ [])
DistinctPairs-snoc [] op h k = (tt, tt)
DistinctPairs-snoc (x ∷ xs) op h k = (
  All-append (λ y. y.provider_pair ≢ x.provider_pair) xs (op ∷ []) h.0 (λ e. k.0 (sym e), tt),
  DistinctPairs-snoc xs op h.1 k.1,
)

DistinctPairs-reverse :
    {C : Type 0} (xs : List (ProviderPairOperation C))
    → DistinctPairs xs
    → DistinctPairs (reverse xs)
DistinctPairs-reverse [] h = tt
DistinctPairs-reverse (x ∷ xs) h = subst DistinctPairs (sym (reverse-append (x ∷ []) xs)) (
    DistinctPairs-snoc (reverse xs) x (DistinctPairs-reverse xs h.1)
      (All-reverse (λ y. y.provider_pair ≢ x.provider_pair) xs h.0))

or-true : (b : Bool) → (b || true) ≡ true
or-true b = ground arith

module _ {C : Type 0} ⦃o : Ord C⦄ where
  -- What the first loop keeps was not seen before.
  keep_unseen-unseen :
      (l : List (ProviderPairOperation C)) (seen : BTreeSet (ProviderPair C)) (k : ProviderPair C)
      → BTreeSet.contains k seen ≡ true
      → All (λ x. x.provider_pair ≢ k) (keep_unseen l seen)
  unfolding keep_unseen
  keep_unseen-unseen [] seen k h = tt
  keep_unseen-unseen (x ∷ l) seen k h =
      let ih =
        keep_unseen-unseen l (BTreeSet.insert x.provider_pair seen) k
          (rw (contains-insert x.provider_pair k seen, h) (or-true _)) in
      elim (Bool-cases (BTreeSet.contains x.provider_pair seen)) [
        | inl e ↦ rw e ih
        | inr e ↦ rw e (λ same. absurd (false≢true (sym e ∙ (rw same h))), ih)
      ]

  keep_unseen-DistinctPairs :
      (l : List (ProviderPairOperation C)) (seen : BTreeSet (ProviderPair C))
      → DistinctPairs (keep_unseen l seen)
  unfolding keep_unseen
  keep_unseen-DistinctPairs [] seen = tt
  keep_unseen-DistinctPairs (x ∷ l) seen =
      let seen' = BTreeSet.insert x.provider_pair seen in
      let ih = keep_unseen-DistinctPairs l seen' in
      elim (Bool-cases (BTreeSet.contains x.provider_pair seen)) [
        | inl e ↦ rw e ih
        | inr e ↦ rw e (
          keep_unseen-unseen l seen' x.provider_pair
              (rw (contains-insert x.provider_pair x.provider_pair seen, ==_refl x.provider_pair)),
          ih,
        )
      ]

  pub dedupe-DistinctPairs : (ops : List (ProviderPairOperation C)) → DistinctPairs (dedupe ops)
  unfolding dedupe
  dedupe-DistinctPairs ops = DistinctPairs-reverse _ (keep_unseen-DistinctPairs (reverse ops) [])
