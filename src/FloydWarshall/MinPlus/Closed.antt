-- ===== src/FloydWarshall/MinPlus/Closed.antt =====
-- After the three loops no detour through a vertex is cheaper, unless a negative cycle shows at some
-- vertex.
use substrate_aggregator.Prelude.{ℕ, refl, ◌⊎◌, inl, inr, some, List, [], ◌∷◌, subst, ◌∈◌}
use substrate_aggregator.FloydWarshall.MinPlus.{
  Costs, plus, Le, Le-refl, Le-trans, NonNeg, plus_mono, plus_assoc, le-plus_left, smaller-le_left,
  smaller-le_right, smaller-either, Table, relax_rows, relax_all,
}
use substrate_aggregator.FloydWarshall.MinPlus.Round.{
  through, through_col, through_row, relax_rows-le, relax_rows-through,
}

module _ {G : Type 0} ⦃g : Costs G⦄ where
  pub relax_all-le : (ks vs : List ℕ) (x y : ℕ) (c : Table G) → Le (relax_all ks vs c x y) (c x y)
  unfolding relax_all
  relax_all-le [] vs x y c = Le-refl (c x y)
  relax_all-le (k ∷ ks) vs x y c =
      Le-trans _ _ _ (relax_all-le ks vs x y (relax_rows k vs vs c)) (relax_rows-le k vs vs x y c)

  -- No path between two of the vertices is shortened by a detour through `v`.
  abbrev pub NoDetour : List ℕ → ℕ → Table G → Type 0
  NoDetour vs v c = (i j : ℕ) → i ∈ vs → j ∈ vs → Le (c i j) (plus (c i v) (c v j))

  module _ (k : ℕ) (c : Table G) (nonneg : NonNeg (c k k)) where
    -- The costs through `k` satisfy the inequality at `k`.
    through_self :
        (i j : ℕ)
        → Le (through k c nonneg i j) (plus (through k c nonneg i k) (through k c nonneg k j))
    through_self i j =
        rw (through_col k c nonneg i, through_row k c nonneg j)
          (smaller-le_right (c i j) (plus (c i k) (c k j)))

    -- They keep it at any other vertex.
    through_other :
        (v i j : ℕ)
        → Le (c i j) (plus (c i v) (c v j))
        → Le (c k j) (plus (c k v) (c v j))
        → Le (c i k) (plus (c i v) (c v k))
        → Le (c k k) (plus (c k v) (c v k))
        → Le (through k c nonneg i j) (plus (through k c nonneg i v) (through k c nonneg v j))
    through_other v i j ij kj ik kk =
        let new = smaller-le_right (c i j) (plus (c i k) (c k j)) in
        elim (smaller-either (c i v) (plus (c i k) (c k v))) [
          | inl e ↦ elim (smaller-either (c v j) (plus (c v k) (c k j))) [
            | inl e' ↦ rw (e, e') (Le-trans _ _ _ (smaller-le_left (c i j) _) ij)
            | inr e' ↦
                rw (e, e', ← plus_assoc (c i v) (c v k) (c k j))
                  (Le-trans _ _ _ new (plus_mono (c i k) _ (c k j) _ ik (Le-refl (c k j))))
          ]
          | inr e ↦ elim (smaller-either (c v j) (plus (c v k) (c k j))) [
            | inl e' ↦
                rw (e, e', plus_assoc (c i k) (c k v) (c v j))
                  (Le-trans _ _ _ new (plus_mono (c i k) _ (c k j) _ (Le-refl (c i k)) kj))
            | inr e' ↦
                rw
                  (
                    e,
                    e',
                    plus_assoc (c i k) (c k v) (plus (c v k) (c k j)),
                    ← plus_assoc (c k v) (c v k) (c k j),
                  )
                  (Le-trans _ _ _ new (
                    plus_mono (c i k) _ (c k j) _ (Le-refl (c i k)) (
                      Le-trans _ _ _ (le-plus_left (c k j) (c k k) nonneg)
                        (plus_mono (c k k) _ (c k j) _ kk (Le-refl (c k j))))))
          ]
        ]

  module _ (vs : List ℕ) (k : ℕ) (k_in : k ∈ vs) (c : Table G) (nonneg : NonNeg (c k k)) where
    relax_rows-NoDetour_self : NoDetour vs k (relax_rows k vs vs c)
    relax_rows-NoDetour_self i j hi hj =
        let eq = relax_rows-through k c nonneg vs vs in
        rw (eq i j hi hj, eq i k hi k_in, eq k j k_in hj) (through_self k c nonneg i j)

    relax_rows-NoDetour : (v : ℕ) → v ∈ vs → NoDetour vs v c → NoDetour vs v (relax_rows k vs vs c)
    relax_rows-NoDetour v hv h i j hi hj =
        let eq = relax_rows-through k c nonneg vs vs in
        rw (eq i j hi hj, eq i v hi hv, eq v j hv hj)
          (through_other k c nonneg v i j (h i j hi hj) (h k j k_in hj) (h i k hi k_in)
            (h k k k_in k_in))

  -- With no negative cycle at the end, the loops leave no detour through any of their vertices.
  pub relax_all-NoDetour :
      (vs ks : List ℕ) (c : Table G)
      → ((v : ℕ) → v ∈ ks → v ∈ vs)
      → ((v : ℕ) → v ∈ vs → NonNeg (relax_all ks vs c v v))
      → (v : ℕ) → v ∈ vs
      → (v ∈ ks) ⊎ NoDetour vs v c
      → NoDetour vs v (relax_all ks vs c)
  unfolding relax_all
  relax_all-NoDetour vs [] c sub nonneg v hv (inl h) = absurd h
  relax_all-NoDetour vs [] c sub nonneg v hv (inr h) = h
  relax_all-NoDetour vs (k ∷ ks) c sub nonneg v hv h =
      let c' = relax_rows k vs vs c in
      let k_in = sub k (inl refl) in
      let k_nonneg =
        Le-trans (some g.zero) _ (c k k) (nonneg k k_in)
          (Le-trans _ _ _ (relax_all-le ks vs k k c') (relax_rows-le k vs vs k k c)) in
      relax_all-NoDetour vs ks c' (λ u hu. sub u (inr hu)) nonneg v hv
        (elim h [
          | inr done ↦ inr (relax_rows-NoDetour vs k k_in c k_nonneg v hv done)
          | inl m ↦ elim m [
            | inl e ↦
                inr
                  (subst (λ u. NoDetour vs u c') e (relax_rows-NoDetour_self vs k k_in c k_nonneg))
            | inr later ↦ inl later
          ]
        ])
