-- ===== src/FloydWarshall/Calculator/Collected.antt =====
-- pallets/aggregator/src/best_path_calculator/floyd_warshall/calculator.rs: the loop that puts the names
-- back, and the map that collects its results.
use mathlib.Core.Option.{some-injective}
use substrate_aggregator.Prelude.{
  returns, panics, ◌≡◌, refl, sym, ap, ◌∙◌, ◌⊎◌, inl, inr, Bool-cases, none≢some, some, List, [],
  ◌∷◌, ◌∈◌, arith,
}
use substrate_aggregator.Ord.{Ord, ◌==◌, ==_iff}
use substrate_aggregator.Collections.BTreeMap
use substrate_aggregator.Collections.BTreeMap.{BTreeMap, get-insert}
use substrate_aggregator.Collections.BTreeMap.Entries.{Ascends, insert-Ascends}
use substrate_aggregator.Types.{CalculatorResult, Pair, pair_ord}
use substrate_aggregator.FloydWarshall.Calculator.{Step, give, ◌>>=◌, traverse, collect}

pub give-injective : {R : Type 0} {r s : R} → give r ≡ give s → r ≡ s
give-injective h = ground arith

-- What gives a result has a first part that does.
pub give_of_bind :
    {R S : Type 0} (m : Step R) (f : R → Step S) {s : S}
    → m >>= f ≡ give s
    → (r : R) × (m ≡ give r) × (f r ≡ give s)
give_of_bind (returns (CalculatorResult.ok r)) f h = (r, refl, h)
give_of_bind (returns (CalculatorResult.err e)) f h = absurd (cc)
give_of_bind panics f h = absurd (cc)

module _ {R S : Type 0} (f : R → Step S) where
  -- The results are those of the elements.
  pub record Traverses (rs : List R) (ss : List S) : Type 0 where
    pub done : traverse f rs ≡ give ss
    pub sources : (s : S) → s ∈ ss → (r : R) × (r ∈ rs) × (f r ≡ give s)
    pub results : (r : R) (s : S) → r ∈ rs → f r ≡ give s → s ∈ ss

  pub traverse-total :
      (rs : List R)
      → ((r : R) → r ∈ rs → (s : S) × (f r ≡ give s))
      → (ss : List S) × Traverses rs ss
  unfolding traverse
  traverse-total [] each =
      ([], record { done = refl; sources = λ s m. absurd m; results = λ r s m e. absurd m })
  traverse-total (r ∷ rs) each =
      let (s, e) = each r (inl refl) in
      let (ss, t) = traverse-total rs λ x m. each x (inr m) in
      (
        s ∷ ss,
        record {
          done = rw (e, t.done) refl;
          sources = λ x m. elim m [
            | inl here ↦ (r, inl refl, e ∙ ap give here)
            | inr there ↦ let (y, n, ey) = t.sources x there in (y, inr n, ey)
          ];
          results = λ y x m ey. elim m [
            | inl here ↦ inl (give-injective (sym e ∙ ap f here ∙ ey))
            | inr there ↦ inr (t.results y x there ey)
          ];
        },
      )

module _ {C V : Type 0} ⦃o : Ord C⦄ where
  get-collect :
      (pair : Pair C) (path : V) (paths : List (Pair C × V)) (collected : BTreeMap (Pair C) V)
      → BTreeMap.get pair (collect paths collected) ≡ some path
      → ((pair, path) ∈ paths) ⊎ (BTreeMap.get pair collected ≡ some path)
  unfolding collect
  get-collect pair path [] collected h = inr h
  get-collect pair path ((other, found) ∷ paths) collected h =
      elim (get-collect pair path paths (BTreeMap.insert other found collected) h) [
        | inl there ↦ inl (inr there)
        | inr before ↦ elim (Bool-cases (other == pair)) [
          | inl same ↦
              let value : some found ≡ some path =
                sym (get-insert other pair found collected ∙ rw same refl) ∙ before in
              inl (inl (rw ((==_iff other pair).0 same, some-injective _ _ value) refl))
          | inr apart ↦ inr (sym (get-insert other pair found collected ∙ rw apart refl) ∙ before)
        ]
      ]

  -- What is found in the collected map is one of the results.
  pub get-collect_mem :
      (pair : Pair C) (path : V) (paths : List (Pair C × V))
      → BTreeMap.get pair (collect paths []) ≡ some path
      → (pair, path) ∈ paths
  unfolding BTreeMap.get
  get-collect_mem pair path paths h = elim (get-collect pair path paths [] h) [
    | inl there ↦ there
    | inr before ↦ absurd (none≢some before)
  ]

  get-collect_kept :
      (pair : Pair C) (path : V) (paths : List (Pair C × V)) (collected : BTreeMap (Pair C) V)
      → ((other : V) → (pair, other) ∈ paths → other ≡ path)
      → ((pair, path) ∈ paths) ⊎ (BTreeMap.get pair collected ≡ some path)
      → BTreeMap.get pair (collect paths collected) ≡ some path
  unfolding collect
  get-collect_kept pair path [] collected only h = elim h [
    | inl none_there ↦ absurd none_there
    | inr e ↦ e
  ]
  get-collect_kept pair path ((other, found) ∷ paths) collected only h =
      get-collect_kept pair path paths (BTreeMap.insert other found collected)
        (λ x m. only x (inr m))
        (elim (Bool-cases (other == pair)) [
          | inl same ↦
              let value = only found (inl (rw ((==_iff other pair).0 same) refl)) in
              inr (get-insert other pair found collected ∙ rw same (ap some value))
          | inr apart ↦ elim h [
            | inl (inl here) ↦ inr (
                get-insert other pair found collected
                ∙ rw ((==_iff other pair).1 (ap (λ (x : Pair C × V). x.0) here))
                    (ap (λ (x : Pair C × V). some x.1) here))
            | inl (inr there) ↦ inl there
            | inr e ↦ inr (get-insert other pair found collected ∙ rw apart e)
          ]
        ])

  -- The only result for a pair is found.
  pub get-collect_of_mem :
      (pair : Pair C) (path : V) (paths : List (Pair C × V))
      → ((other : V) → (pair, other) ∈ paths → other ≡ path)
      → (pair, path) ∈ paths
      → BTreeMap.get pair (collect paths []) ≡ some path
  get-collect_of_mem pair path paths only m = get-collect_kept pair path paths [] only (inl m)

  pub collect-Ascends :
      (paths : List (Pair C × V)) (collected : BTreeMap (Pair C) V)
      → Ascends collected
      → Ascends (collect paths collected)
  unfolding collect
  collect-Ascends [] collected h = h
  collect-Ascends ((pair, path) ∷ paths) collected h =
      collect-Ascends paths (BTreeMap.insert pair path collected)
        (insert-Ascends pair path collected h)
