-- ===== src/Collections/BTreeMap.antt =====
-- `BTreeMap` as the list of its entries in the order of its keys, which is how it iterates.
pub mod Entries
use Prim.Native.Nat.Ordering.{lt, eq, gt}
use substrate_aggregator.Prelude.{
  ◌≡◌, refl, sym, ap, Bool, true, false, Bool-cases, inl, inr, Option, none, some, List, [], ◌∷◌,
  arith, if◌then◌else◌,
}
use substrate_aggregator.Ord.{Ord, ◌==◌, ==_iff}

abbrev pub BTreeMap {ℓ κ} : Type ℓ → Type κ → Type (ℓ ⊔ κ)
BTreeMap K V = List (K × V)

module _ {ℓ κ} {K : Type ℓ} {V : Type κ} ⦃o : Ord K⦄ where
  unfoldable pub get : K → BTreeMap K V → Option V
  get k [] = none
  get k ((j, v) ∷ m) = if j == k then some v else get k m

  unfoldable pub insert : K → V → BTreeMap K V → BTreeMap K V
  insert k v [] = (k, v) ∷ []
  insert k v ((j, w) ∷ m) = elim (o.cmp k j) [
    | lt ↦ (k, v) ∷ (j, w) ∷ m
    | eq ↦ (k, v) ∷ m
    | gt ↦ (j, w) ∷ insert k v m
  ]

  -- Reading after a write.
  pub get-insert :
      (k j : K) (v : V) (m : BTreeMap K V)
      → get j (insert k v m) ≡ (if k == j then some v else get j m)
  unfolding get insert
  get-insert k j v [] = refl
  get-insert k j v ((i, w) ∷ m) =
      ground
        (arith, get-insert k j v m, o.eq_of_cmp k i, o.eq_of_cmp k j, o.eq_of_cmp i j, o.cmp_refl k)

  -- Reading after a write that is made under a test.
  pub get-insert_if :
      (b : Bool) (k j : K) (v : V) (m : BTreeMap K V)
      → get j (if b then insert k v m else m)
        ≡ (if k == j then (if b then some v else get k m) else get j m)
  get-insert_if true k j v m = get-insert k j v m
  get-insert_if false k j v m = elim (Bool-cases (k == j)) [
    | inl e ↦ rw e (ap (λ i. get i m) (sym ((==_iff k j).0 e)))
    | inr e ↦ rw e
  ]
