-- ===== src/FloydWarshall/MinPlus/Round.antt =====
-- One round of the loops: what it makes of the costs, if the vertex of the round has no negative
-- cycle.
use mathlib.Core.Path.{ap₂}
use substrate_aggregator.Prelude.{
  ℕ, ◌≡◌, refl, ◌∙◌, ap, ◌⊎◌, inl, inr, Bool-cases, Option, List, [], ◌∷◌, subst, ◌∈◌,
}
use substrate_aggregator.Ord.{nat_ord, ◌==◌, ==_iff, ==_refl}
use substrate_aggregator.Types.{pair_ord}
use substrate_aggregator.FloydWarshall.Algo.{at}
use substrate_aggregator.FloydWarshall.MinPlus.{
  Costs, plus, smaller, Le, Le-refl, Le-trans, NonNeg, le-plus_right, le-plus_left, smaller-le_left,
  smaller-le_right, smaller_of_le, Table, relax, relax_row, relax_rows,
}

module _ {G : Type 0} ⦃g : Costs G⦄ where
  relax-cases :
      (k i j x y : ℕ) (c : Table G)
      → ((i ≡ x) × (j ≡ y) × (relax k i j c x y ≡ smaller (c i j) (plus (c i k) (c k j))))
        ⊎ (relax k i j c x y ≡ c x y)
  unfolding relax
  relax-cases k i j x y c = elim (Bool-cases (at i j == at x y)) [
    | inl e ↦
        let same = (==_iff (at i j) (at x y)).0 e in
        inl (ap (λ p. p.source) same, ap (λ p. p.target) same, rw e)
    | inr e ↦ inr (rw e)
  ]

  -- A step makes no cost larger.
  pub relax-le : (k i j x y : ℕ) (c : Table G) → Le (relax k i j c x y) (c x y)
  relax-le k i j x y c = elim (relax-cases k i j x y c) [
    | inl (ix, jy, e) ↦ rw (e, ← ix, ← jy) (smaller-le_left (c i j) (plus (c i k) (c k j)))
    | inr e ↦ rw e (Le-refl (c x y))
  ]

  pub relax_row-le :
      (k i : ℕ) (js : List ℕ) (x y : ℕ) (c : Table G) → Le (relax_row k i js c x y) (c x y)
  unfolding relax_row
  relax_row-le k i [] x y c = Le-refl (c x y)
  relax_row-le k i (j ∷ js) x y c =
      Le-trans _ _ _ (relax_row-le k i js x y (relax k i j c)) (relax-le k i j x y c)

  pub relax_rows-le :
      (k : ℕ) (is js : List ℕ) (x y : ℕ) (c : Table G) → Le (relax_rows k is js c x y) (c x y)
  unfolding relax_rows
  relax_rows-le k [] js x y c = Le-refl (c x y)
  relax_rows-le k (i ∷ is) js x y c =
      Le-trans _ _ _ (relax_rows-le k is js x y (relax_row k i js c)) (relax_row-le k i js x y c)

  module _ (k : ℕ) (d : Table G) (nonneg : NonNeg (d k k)) where
    -- The cost that the round is to give to a pair.
    abbrev pub through : ℕ → ℕ → Option G
    through x y = smaller (d x y) (plus (d x k) (d k y))

    -- In the middle of the round: the paths from and to its vertex are what they were, and any
    -- other has its old cost or its new one.
    pub record Between (c : Table G) : Type 0 where
      pub row : (y : ℕ) → c k y ≡ d k y
      pub col : (x : ℕ) → c x k ≡ d x k
      pub either : (x y : ℕ) → (c x y ≡ d x y) ⊎ (c x y ≡ through x y)

    pub through_col : (x : ℕ) → through x k ≡ d x k
    through_col x = smaller_of_le (d x k) _ (le-plus_right (d x k) (d k k) nonneg)

    pub through_row : (y : ℕ) → through k y ≡ d k y
    through_row y = smaller_of_le (d k y) _ (le-plus_left (d k y) (d k k) nonneg)

    -- The step at a pair gives it its new cost.
    relax-through :
        (i j : ℕ) (c : Table G) → Between c → smaller (c i j) (plus (c i k) (c k j)) ≡ through i j
    relax-through i j c b =
        rw (b.col i, b.row j)
          (elim (b.either i j) [
            | inl e ↦ rw e
            | inr e ↦ rw e (smaller_of_le _ _ (smaller-le_right (d i j) (plus (d i k) (d k j))))
          ])

    relax-Between : (i j : ℕ) (c : Table G) → Between c → Between (relax k i j c)
    relax-Between i j c b = record {
      row = λ y. elim (relax-cases k i j k y c) [
        | inl (ik, jy, e) ↦ e ∙ (relax-through i j c b ∙ (ap₂ through ik jy ∙ through_row y))
        | inr e ↦ e ∙ b.row y
      ];
      col = λ x. elim (relax-cases k i j x k c) [
        | inl (ix, jk, e) ↦ e ∙ (relax-through i j c b ∙ (ap₂ through ix jk ∙ through_col x))
        | inr e ↦ e ∙ b.col x
      ];
      either = λ x y. elim (relax-cases k i j x y c) [
        | inl (ix, jy, e) ↦ inr (e ∙ (relax-through i j c b ∙ ap₂ through ix jy))
        | inr e ↦ elim (b.either x y) [ inl old ↦ inl (e ∙ old) | inr new ↦ inr (e ∙ new) ]
      ];
    }

    -- A pair that has its new cost keeps it.
    relax_keeps :
        (i j x y : ℕ) (c : Table G)
        → Between c
        → c x y ≡ through x y
        → relax k i j c x y ≡ through x y
    relax_keeps i j x y c b h = elim (relax-cases k i j x y c) [
      | inl (ix, jy, e) ↦ e ∙ (relax-through i j c b ∙ ap₂ through ix jy)
      | inr e ↦ e ∙ h
    ]

    relax_self : (i j : ℕ) (c : Table G) → Between c → relax k i j c i j ≡ through i j
    unfolding relax
    relax_self i j c b = rw (==_refl (at i j)) (relax-through i j c b)

    relax_row-Between :
        (i : ℕ) (js : List ℕ) (c : Table G)
        → Between c
        → Between (relax_row k i js c)
          × ((x y : ℕ) → c x y ≡ through x y → relax_row k i js c x y ≡ through x y)
          × ((y : ℕ) → y ∈ js → relax_row k i js c i y ≡ through i y)
    unfolding relax_row
    relax_row-Between i [] c b = (b, λ x y h. h, λ y h. absurd h)
    relax_row-Between i (j ∷ js) c b =
        let c' = relax k i j c in
        let (after, keeps, done) = relax_row-Between i js c' (relax-Between i j c b) in
        (
          after,
          λ x y h. keeps x y (relax_keeps i j x y c b h),
          λ y h. elim h [
            | inl e ↦
                subst (λ z. relax_row k i js c' i z ≡ through i z) e
                  (keeps i j (relax_self i j c b))
            | inr later ↦ done y later
          ],
        )

    relax_rows-Between :
        (is js : List ℕ) (c : Table G)
        → Between c
        → Between (relax_rows k is js c)
          × ((x y : ℕ) → c x y ≡ through x y → relax_rows k is js c x y ≡ through x y)
          × ((x y : ℕ) → x ∈ is → y ∈ js → relax_rows k is js c x y ≡ through x y)
    unfolding relax_rows
    relax_rows-Between [] js c b = (b, λ x y h. h, λ x y h. absurd h)
    relax_rows-Between (i ∷ is) js c b =
        let c' = relax_row k i js c in
        let (first, kept, row_done) = relax_row-Between i js c b in
        let (after, keeps, done) = relax_rows-Between is js c' first in
        (
          after,
          λ x y h. keeps x y (kept x y h),
          λ x y h hy. elim h [
            | inl e ↦
                subst (λ z. relax_rows k is js c' z y ≡ through z y) e (keeps i y (row_done y hy))
            | inr later ↦ done x y later hy
          ],
        )

    start-Between : Between d
    start-Between = record { row = λ y. refl; col = λ x. refl; either = λ x y. inl refl }

    -- The round gives each pair of its vertices the smaller of its old cost and the cost through
    -- the vertex of the round.
    pub relax_rows-through :
        (is js : List ℕ) (x y : ℕ) → x ∈ is → y ∈ js → relax_rows k is js d x y ≡ through x y
    relax_rows-through is js = (relax_rows-Between is js d start-Between).2
