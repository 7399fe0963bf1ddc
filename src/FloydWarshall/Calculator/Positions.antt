-- ===== src/FloydWarshall/Calculator/Positions.antt =====
-- pallets/aggregator/src/best_path_calculator/floyd_warshall/calculator.rs: the positions of names in their
-- sorted lists.
use Prim.Native.Nat.Ordering.{lt}
use mathlib.Core.Option.{some-injective}
use substrate_aggregator.Prelude.{
  Option, if◌then◌else◌, All-mem, false, ℕ, zero, suc, ◌+◌, ◌≡◌, refl, sym, ap, ◌∙◌, ◌⊎◌, inl, inr,
  Bool-cases, some, List, [], ◌∷◌, ◌∈◌, arith, get_elem?,
}
use substrate_aggregator.Ord.{Ord, ◌==◌, ==_iff}
use substrate_aggregator.Collections.BTreeMap
use substrate_aggregator.Collections.BTreeMap.{BTreeMap, get-insert}
use substrate_aggregator.Collections.BTreeSet.{BTreeSet, Ascends}
use substrate_aggregator.Types.{provider_ord}
use substrate_aggregator.FloydWarshall.Calculator.{numbered}

module _ {K : Type 0} ⦃o : Ord K⦄ where
  -- Every number in the map is the position of its key.
  abbrev Positions : List K → BTreeMap K ℕ → Type 0
  Positions all m = (k : K) (i : ℕ) → BTreeMap.get k m ≡ some i → get_elem? all i ≡ some k

  insert-Positions :
      (all : List K) (k : K) (n : ℕ) (m : BTreeMap K ℕ)
      → get_elem? all n ≡ some k
      → Positions all m
      → Positions all (BTreeMap.insert k n m)
  insert-Positions all k n m here h j i e = elim (Bool-cases (k == j)) [
    | inl same ↦
        let number : some n ≡ some i = sym (get-insert k j n m ∙ rw same refl) ∙ e in
        rw (sym (some-injective _ _ number)) (here ∙ ap some ((==_iff k j).0 same))
    | inr other ↦ h j i (sym (get-insert k j n m ∙ rw other refl) ∙ e)
  ]

  numbered-Positions :
      (all ks : List K) (n : ℕ) (m : BTreeMap K ℕ)
      → ((i : ℕ) → get_elem? ks i ≡ get_elem? all (n + i))
      → Positions all m
      → Positions all (numbered ks n m)
  unfolding numbered
  numbered-Positions all [] n m suffix h = h
  numbered-Positions all (k ∷ ks) n m suffix h =
      numbered-Positions all ks (n + 1) (BTreeMap.insert k n m)
        (λ i. suffix (suc i) ∙ ap (get_elem? all) (omega arith))
        (insert-Positions all k n m (ap (get_elem? all) (omega arith) ∙ sym (suffix 0)) h)

  numbered-kept :
      (ks : List K) (n : ℕ) (m : BTreeMap K ℕ) (j : K)
      → (j ∈ ks) ⊎ ((i : ℕ) × (BTreeMap.get j m ≡ some i))
      → (i : ℕ) × (BTreeMap.get j (numbered ks n m) ≡ some i)
  unfolding numbered
  numbered-kept [] n m j (inl h) = absurd h
  numbered-kept [] n m j (inr h) = h
  numbered-kept (k ∷ ks) n m j h = numbered-kept ks (n + 1) (BTreeMap.insert k n m) j (elim h [
    | inl (inl same) ↦ inr (n, get-insert k j n m ∙ rw ((==_iff k j).1 same) refl)
    | inl (inr there) ↦ inl there
    | inr (i, e) ↦ elim (Bool-cases (k == j)) [
      | inl same ↦ inr (n, get-insert k j n m ∙ rw same refl)
      | inr other ↦ inr (i, get-insert k j n m ∙ (rw other refl ∙ e))
    ]
  ])

  -- Each element gets a number, which is its position.
  pub numbered-position :
      (ks : List K) (k : K)
      → k ∈ ks
      → (i : ℕ) × (BTreeMap.get k (numbered ks 0 []) ≡ some i) × (get_elem? ks i ≡ some k)
  unfolding BTreeMap.get
  numbered-position ks k m =
      let (i, e) = numbered-kept ks 0 [] k (inl m) in
      (
        i,
        e,
        numbered-Positions ks ks 0 [] (λ j. ap (get_elem? ks) (omega arith)) (λ j i h. absurd (cc))
            k i e,
      )

module _ {K : Type 0} ⦃o : Ord K⦄ where
  -- The position of the first element that is equal to `k`.
  abbrev pub index_of : K → List K → ℕ
  index_of k [] = 0
  index_of k (j ∷ ks) = if j == k then 0 else suc (index_of k ks)

  pub get_elem?-index_of : (k : K) (ks : List K) → k ∈ ks → get_elem? ks (index_of k ks) ≡ some k
  get_elem?-index_of k [] m = absurd m
  get_elem?-index_of k (j ∷ ks) m = elim (Bool-cases (j == k)) [
    | inl same ↦ rw same (ap some ((==_iff j k).0 same))
    | inr other ↦ rw other (elim m [
      | inl here ↦ absurd (ground (arith, ==_iff j k))
      | inr there ↦ get_elem?-index_of k ks there
    ])
  ]

  -- Only an element that is equal is found at the position.
  pub name_of_index_of :
      (k : K) (ks : List K) {d : K} → get_elem? ks (index_of k ks) ≡ some d → d ≡ k
  name_of_index_of k [] h = absurd (cc)
  name_of_index_of k (j ∷ ks) {d} h = elim (Bool-cases (j == k)) [
    | inl same ↦
        let here : Option.some j ≡ some d = rw same at h in
        sym (some-injective _ _ here) ∙ (==_iff j k).0 same
    | inr other ↦ name_of_index_of k ks (rw other at h)
  ]

  mem_of_get_elem? : (ks : List K) (i : ℕ) {k : K} → get_elem? ks i ≡ some k → k ∈ ks
  mem_of_get_elem? [] i h = absurd (cc)
  mem_of_get_elem? (j ∷ ks) zero h = inl (some-injective _ _ h)
  mem_of_get_elem? (j ∷ ks) (suc i) h = inr (mem_of_get_elem? ks i h)

  -- In a set an element has one position.
  pub index_of_position :
      (ks : BTreeSet K) (i : ℕ) {k : K} → Ascends ks → get_elem? ks i ≡ some k → index_of k ks ≡ i
  index_of_position [] i asc h = absurd (cc)
  index_of_position (j ∷ ks) zero {k} asc h = rw ((==_iff j k).1 (some-injective _ _ h)) refl
  index_of_position (j ∷ ks) (suc i) {k} (above, asc) h =
      let less = All-mem (λ x. o.cmp j x ≡ lt) k ks above (mem_of_get_elem? ks i h) in
      let other : (j == k) ≡ false = ground arith in
      rw other (ap suc (index_of_position ks i asc h))
