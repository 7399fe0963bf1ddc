-- ===== src/Pallet/Offchain/Loops.antt =====
-- pallets/aggregator/src/lib.rs: what the two loops of the off-chain worker select.
use substrate_aggregator.Prelude.{
  ℕ, ◌≡◌, ◌<◌, refl, sym, ◌∙◌, ap, subst, Option, none, some, Bool, true, false, List, [], ◌∷◌, inl,
  inr, ◌∈◌, mem-append_left, mem-append_right, mem-append_split, if◌then◌else◌, All,
}
use substrate_aggregator.Ord.{Ord}
use substrate_aggregator.Collections.BTreeMap
use substrate_aggregator.Collections.BTreeMap.{BTreeMap}
use substrate_aggregator.Types.{Pair, PricePath, pair_ord}
use substrate_aggregator.Utils.Tolerance.{breaches_tolerance-returns}
use substrate_aggregator.Pallet.State.{Amount, Change}
use substrate_aggregator.Pallet.Offchain.{
  Run, done, failed, panicked, ◌>>=◌, change_to, path_breaches, changed_path, changed_paths,
}

-- A step that ends well has a first part that does.
pub done_of_bind :
    {R S : Type 0} (m : Run R) (f : R → Run S) {s : S}
    → m >>= f ≡ done s
    → (r : R) × (m ≡ done r) × (f r ≡ done s)
done_of_bind (done r) f h = (r, refl, h)
done_of_bind (failed e) f h = absurd (cc)
done_of_bind panicked f h = absurd (cc)

pub done-injective : {R : Type 0} {r s : R} → done r ≡ done s → r ≡ s
done-injective {R} {r} h = ap (result_or r) h
  where
    result_or : R → Run R → R
    result_or d (done x) = x
    result_or d (failed e) = d
    result_or d panicked = d

module _ {C A : Type 0} ⦃a : Amount A⦄ where
  -- Both costs are in `u128`, and the old one is not zero.
  abbrev pub Comparable : (old new : PricePath C A) → Type 0
  Comparable old new =
      (x : ℕ) × (y : ℕ) × (a.try_into_u128 old.total_cost ≡ some x)
      × (a.try_into_u128 new.total_cost ≡ some y)
      × (0 < x)

  pub path_breaches-total :
      (tolerance : ℕ) (old new : PricePath C A)
      → Comparable old new
      → (b : Bool) × (path_breaches tolerance old new ≡ done b)
  unfolding path_breaches
  path_breaches-total tolerance old new (x, y, e, h, positive) =
      let (b, compared) = breaches_tolerance-returns x y tolerance positive in
      (b, rw (e, h, compared) refl)

module _ {C A : Type 0} ⦃a : Amount A⦄ (tolerance : ℕ) (old : PricePath C A) where
  -- A change comes of a new path that differs by more than the tolerance, and only of such a one.
  changed_path-mem :
      (pair : Pair C) (new : Option (PricePath C A)) {first : List (Change C A)} (c : Change C A)
      → changed_path tolerance pair old new ≡ done first
      → c ∈ first
      → (path : PricePath C A) × (new ≡ some path)
        × (path_breaches tolerance old path ≡ done true)
        × (c ≡ change_to pair path)
  unfolding changed_path
  changed_path-mem pair none {first} c e m = absurd (subst (λ l. c ∈ l) (sym (done-injective e)) m)
  changed_path-mem pair (some path) {first} c e m =
      let (b, breach, ends) = done_of_bind (path_breaches tolerance old path) _ e in
      by_breach b breach (done-injective ends)
    where
      by_breach :
          (b : Bool)
          → path_breaches tolerance old path ≡ done b
          → (if b then change_to pair path ∷ [] else []) ≡ first
          → (p : PricePath C A) × (some path ≡ some p)
            × (path_breaches tolerance old p ≡ done true)
            × (c ≡ change_to pair p)
      by_breach true breach l = elim (subst (λ l. c ∈ l) (sym l) m) [
        | inl e ↦ (path, refl, breach, sym e)
        | inr h ↦ absurd h
      ]
      by_breach false breach l = absurd (subst (λ l. c ∈ l) (sym l) m)

  changed_path-breach :
      (pair : Pair C) (path : PricePath C A)
      → path_breaches tolerance old path ≡ done true
      → changed_path tolerance pair old (some path) ≡ done (change_to pair path ∷ [])
  unfolding changed_path
  changed_path-breach pair path breach = rw breach refl

  changed_path-total :
      (pair : Pair C) (new : Option (PricePath C A))
      → ((path : PricePath C A) → new ≡ some path → Comparable old path)
      → (first : List (Change C A)) × (changed_path tolerance pair old new ≡ done first)
  unfolding changed_path
  changed_path-total pair none comparable = ([], refl)
  changed_path-total pair (some path) comparable =
      let (b, breach) = path_breaches-total tolerance old path (comparable path refl) in
      rw breach (_, refl)

module _ {C A : Type 0} ⦃a : Amount A⦄ ⦃o : Ord C⦄ (tolerance : ℕ)
    (new : BTreeMap (Pair C) (PricePath C A)) where
  -- Each stored path that gets a new one can be compared with it.
  abbrev pub AllComparable : List (Pair C × PricePath C A) → Type 0
  AllComparable =
      All (λ e. (path : PricePath C A) → BTreeMap.get e.0 new ≡ some path → Comparable e.1 path)

  abbrev pub Breaching : Pair C → (old path : PricePath C A) → Type 0
  Breaching pair old path =
      (BTreeMap.get pair new ≡ some path) × (path_breaches tolerance old path ≡ done true)

  pub changed_paths-total :
      (stored : List (Pair C × PricePath C A))
      → AllComparable stored
      → (changed : List (Change C A)) × (changed_paths tolerance new stored ≡ done changed)
  unfolding changed_paths
  changed_paths-total [] h = ([], refl)
  changed_paths-total ((pair, old) ∷ stored) (h, hs) =
      let (first, e) = changed_path-total tolerance old pair (BTreeMap.get pair new) h in
      let (others, es) = changed_paths-total stored hs in rw (e, es) (_, refl)

  pub changed_paths-mem :
      (stored : List (Pair C × PricePath C A)) (changed : List (Change C A)) (c : Change C A)
      → changed_paths tolerance new stored ≡ done changed
      → c ∈ changed
      → (pair : Pair C) × (old : PricePath C A) × (path : PricePath C A) × ((pair, old) ∈ stored)
        × Breaching pair old path
        × (c ≡ change_to pair path)
  unfolding changed_paths
  changed_paths-mem [] changed c e m = absurd (subst (λ l. c ∈ l) (sym (done-injective e)) m)
  changed_paths-mem ((pair, old) ∷ stored) changed c e m =
      let (first, e1, r1) =
        done_of_bind (changed_path tolerance pair old (BTreeMap.get pair new)) _ e in
      let (others, e2, r2) = done_of_bind (changed_paths tolerance new stored) _ r1 in
      elim (mem-append_split c first others (subst (λ l. c ∈ l) (sym (done-injective r2)) m)) [
        | inl here ↦
            let (path, found, breach, same) =
              changed_path-mem tolerance old pair (BTreeMap.get pair new) c e1 here in
            (pair, old, path, inl refl, (found, breach), same)
        | inr there ↦
            let (pair', old', path, m', b, same) = changed_paths-mem stored others c e2 there in
            (pair', old', path, inr m', b, same)
      ]

  pub changed_paths-covers :
      (stored : List (Pair C × PricePath C A)) (changed : List (Change C A)) (pair : Pair C)
      (old path : PricePath C A)
      → changed_paths tolerance new stored ≡ done changed
      → (pair, old) ∈ stored
      → Breaching pair old path
      → change_to pair path ∈ changed
  unfolding changed_paths
  changed_paths-covers [] changed pair old path e m b = absurd m
  changed_paths-covers ((pair', old') ∷ stored) changed pair old path e m (found, breach) =
      let (first, e1, r1) =
        done_of_bind (changed_path tolerance pair' old' (BTreeMap.get pair' new)) _ e in
      let (others, e2, r2) = done_of_bind (changed_paths tolerance new stored) _ r1 in
      subst (λ l. change_to pair path ∈ l) (done-injective r2)
        (elim m [
          | inl same ↦
              mem-append_left (change_to pair path) first others (here first same found breach e1)
          | inr there ↦
              mem-append_right (change_to pair path) first others
                (changed_paths-covers stored others pair old path e2 there (found, breach))
        ])
    where
      here :
          {x y : Pair C × PricePath C A} (first : List (Change C A)) {p : PricePath C A}
          → x ≡ y
          → BTreeMap.get y.0 new ≡ some p
          → path_breaches tolerance y.1 p ≡ done true
          → changed_path tolerance x.0 x.1 (BTreeMap.get x.0 new) ≡ done first
          → change_to y.0 p ∈ first
      here {x} {y} first {p} same found breach e =
          let e' =
            subst (λ z. changed_path tolerance z.0 z.1 (BTreeMap.get z.0 new) ≡ done first) same
              e in
          subst (λ l. change_to y.0 p ∈ l)
            (done-injective (
              sym (changed_path-breach tolerance y.1 y.0 p breach)
              ∙ ap (changed_path tolerance y.0 y.1) (sym found)
              ∙ e'))
            (inl refl)
