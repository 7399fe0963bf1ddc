-- ===== src/Storage.antt =====
-- The storage maps of the runtime, as the functions from keys to optional values that they stand
-- for. A double map is a map from pairs. The runtime's own encoding and hashing leave no trace here.
use mathlib.Core.Path.{fun_ext}
use mathlib.Core.Option.{some-injective}
use substrate_aggregator.Prelude.{
  ◌≡◌, ◌≢◌, refl, sym, ap, subst, ◌∙◌, ◌↔◌, inl, inr, Option, none, some, List, [], ◌∷◌, ◌∈◌, arith,
  if◌then◌else◌, Bool-cases,
}
use substrate_aggregator.Ord.{Ord, ◌==◌, ==_iff, ==_refl}

abbrev pub Storage : Type 0 → Type 0 → Type 0
Storage K V = K → Option V

module _ {K V : Type 0} ⦃o : Ord K⦄ where
  -- `mutate_exists` writes back what its closure leaves: a value, or nothing.
  unfoldable pub write : K → Option V → Storage K V → Storage K V
  write k v m j = if k == j then v else m j

  pub write_lem :
      (k j : K) (v : Option V) (m : Storage K V) → write k v m j ≡ (if k == j then v else m j)
  unfolding write
  write_lem k j v m = refl

  pub write_self : (k : K) (v : Option V) (m : Storage K V) → write k v m k ≡ v
  unfolding write
  write_self k v m = rw (==_refl k)

  pub write-ne : (k j : K) (v : Option V) (m : Storage K V) → k ≢ j → write k v m j ≡ m j
  unfolding write
  write-ne k j v m h = elim (Bool-cases (k == j)) [
    | inl e ↦ absurd (h ((==_iff k j).0 e))
    | inr e ↦ rw e
  ]

  -- Writing what is there already changes nothing.
  pub write-same : (k : K) (v : Option V) (m : Storage K V) → m k ≡ v → write k v m ≡ m
  unfolding write
  write-same k v m h = fun_ext λ j. elim (Bool-cases (k == j)) [
    | inl e ↦ rw e (sym h ∙ ap m ((==_iff k j).0 e))
    | inr e ↦ rw e
  ]

-- What `iter` promises: it runs over the stored entries, and over nothing else.
abbrev pub IsListing : {K V : Type 0} → List (K × V) → Storage K V → Type 0
IsListing {K} {V} entries m = (k : K) (v : V) → ((k, v) ∈ entries) ↔ (m k ≡ some v)

-- A map into which one value is written on an empty map is listed by that entry.
pub one-IsListing :
    {K V : Type 0} ⦃o : Ord K⦄ (k : K) (v : V)
    → IsListing ((k, v) ∷ []) (write k (some v) (λ j. none))
one-IsListing {K} {V} k v j w = (listed, found)
  where
    held : Storage K V
    held = write k (some v) (λ i. none)

    listed : ◌∈◌ {A = K × V} (j, w) ((k, v) ∷ []) → held j ≡ some w
    listed (inl e) = subst (λ z. held z.0 ≡ some z.1) e (write_self k (some v) (λ i. none))
    listed (inr h) = absurd h

    found : held j ≡ some w → ◌∈◌ {A = K × V} (j, w) ((k, v) ∷ [])
    found h = elim (Bool-cases (k == j)) [
      | inl e ↦
          let same = (==_iff k j).0 e in
          let value : v ≡ w =
            some-injective _ _ (sym (write_self k (some v) (λ i. none)) ∙ rw (sym same) at h) in
          inl (λ i. (same i, value i))
      | inr e ↦
          let apart : k ≢ j = λ same. ground (arith, ==_iff k j) in
          let nothing : ◌≡◌ {A = Option V} none (some w) =
            sym (write-ne k j (some v) (λ i. none) apart) ∙ h in
          absurd (cc)
    ]
