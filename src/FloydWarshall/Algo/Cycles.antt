-- ===== src/FloydWarshall/Algo/Cycles.antt =====
-- pallets/aggregator/src/best_path_calculator/floyd_warshall/algo.rs: the loop that looks for a
-- negative cycle.
use substrate_aggregator.Prelude.{
  ℕ, ◌≡◌, refl, true, false, Bool-cases, some, Option-cases, List, [], ◌∷◌, ◌⊎◌, inl, inr, subst,
  arith, ◌∈◌,
}
use substrate_aggregator.Ord.{nat_ord}
use substrate_aggregator.Collections.BTreeMap
use substrate_aggregator.Types.{pair_ord}
use substrate_aggregator.FloydWarshall.Float.{Float}
use substrate_aggregator.FloydWarshall.Algo.{
  EdgePath, Matrix, at, check_cycles, ok, err, negative_cycles_error,
}

module _ {F : Type 0} ⦃fl : Float F⦄ where
  -- The check returns the matrix unchanged, and only if no vertex shows a negative cycle.
  pub check_cycles-ok :
      (vs : List ℕ) (m : Matrix F) {r : Matrix F}
      → check_cycles vs m ≡ ok r
      → (r ≡ m)
        × ((v : ℕ)
            → v ∈ vs
            → (p : EdgePath F) × (BTreeMap.get (at v v) m ≡ some p)
              × (fl.lt p.total_cost fl.zero ≡ false))
  unfolding check_cycles
  check_cycles-ok [] m h = (ground arith, λ v hv. absurd hv)
  check_cycles-ok (u ∷ vs) m {r} h = elim (Option-cases (BTreeMap.get (at u u) m)) [
    | inl e ↦ absurd (ground arith)
    | inr (p, e) ↦
        let nonneg : fl.lt p.total_cost fl.zero ≡ false = ground arith in
        let rest : check_cycles vs m ≡ ok r = ground arith in
        let (same, ih) = check_cycles-ok vs m rest in
        (
          same,
          λ v hv. elim hv [
            | inl eq ↦
                subst
                  (λ z.
                    (q : EdgePath F) × (BTreeMap.get (at z z) m ≡ some q)
                    × (fl.lt q.total_cost fl.zero ≡ false))
                  eq (p, e, nonneg)
            | inr later ↦ ih v later
          ],
        )
  ]

  -- It fails only at a vertex that shows one, and does not panic at a present path.
  pub check_cycles-cases :
      (vs : List ℕ) (m : Matrix F)
      → ((v : ℕ) → v ∈ vs → (p : EdgePath F) × (BTreeMap.get (at v v) m ≡ some p))
      → (check_cycles vs m ≡ ok m)
        ⊎ ((check_cycles vs m ≡ err negative_cycles_error)
            × ((v : ℕ) × (p : EdgePath F) × (v ∈ vs)
                × (BTreeMap.get (at v v) m ≡ some p)
                × (fl.lt p.total_cost fl.zero ≡ true)))
  unfolding check_cycles
  check_cycles-cases [] m h = inl refl
  check_cycles-cases (u ∷ vs) m h =
      let (p, e) = h u (inl refl) in
      elim (Bool-cases (fl.lt p.total_cost fl.zero)) [
        | inl negative ↦ inr (ground arith, (u, p, inl refl, e, negative))
        | inr nonneg ↦ elim (check_cycles-cases vs m (λ v hv. h v (inr hv))) [
          | inl fine ↦ inl (ground arith)
          | inr (bad, (v, q, hv, found, negative)) ↦
              inr (ground arith, (v, q, inr hv, found, negative))
        ]
      ]
