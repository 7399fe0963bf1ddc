-- ===== src/FloydWarshall/MinPlus.antt =====
-- The three loops of pallets/aggregator/src/best_path_calculator/floyd_warshall/algo.rs over exact
-- costs, where `none` is an infinite one: the specification that the matrix of paths is held to.
pub mod Round
pub mod Closed
use substrate_aggregator.Prelude.{
  ℕ, ◌≡◌, refl, Bool, true, false, ◌&&◌, ◌⊎◌, inl, inr, Bool-cases, Option, none, some, List, [],
  ◌∷◌, if◌then◌else◌, arith, subst,
}
use substrate_aggregator.Ord.{nat_ord, ◌==◌}
use substrate_aggregator.Types.{pair_ord}
use substrate_aggregator.FloydWarshall.Algo.{at, Edge}

-- Exact costs: they are added with no rounding, and compared by a test.
pub record Costs (G : Type 0) : Type 0 where
  pub zero : G
  pub plus : G → G → G
  pub lt : G → G → Bool
  pub plus_assoc : (a b c : G) → plus (plus a b) c ≡ plus a (plus b c)
  pub zero-plus : (a : G) → plus zero a ≡ a
  pub plus-zero : (a : G) → plus a zero ≡ a
  pub le_of_lt : (a b : G) → lt a b ≡ true → lt b a ≡ false
  pub le_refl : (a : G) → lt a a ≡ false
  pub le_trans : (a b c : G) → lt b a ≡ false → lt c b ≡ false → lt c a ≡ false
  pub plus_mono : (a b c d : G) → lt b a ≡ false → lt d c ≡ false → lt (plus b d) (plus a c) ≡ false

-- The costs of the best paths known.
abbrev pub Table : Type 0 → Type 0
Table G = ℕ → ℕ → Option G

module _ {G : Type 0} ⦃g : Costs G⦄ where
  -- The sum of two costs, infinite if one is.
  abbrev pub plus : Option G → Option G → Option G
  plus (some a) (some b) = some (g.plus a b)
  plus (some a) none = none
  plus none b = none

  -- The smaller of a cost and a new one.
  abbrev pub smaller : Option G → Option G → Option G
  smaller x none = x
  smaller none (some s) = some s
  smaller (some c) (some s) = if g.lt s c then some s else some c

  abbrev pub Le : Option G → Option G → Type 0
  Le a none = Unit
  Le none (some b) = ⊥
  Le (some a) (some b) = g.lt b a ≡ false

  pub Le-refl : (a : Option G) → Le a a
  Le-refl none = tt
  Le-refl (some a) = g.le_refl a

  pub Le-trans : (a b c : Option G) → Le a b → Le b c → Le a c
  Le-trans a b none h k = tt
  Le-trans a none (some c) h k = absurd k
  Le-trans none (some b) (some c) h k = absurd h
  Le-trans (some a) (some b) (some c) h k = g.le_trans a b c h k

  -- What costs no more than a finite cost is finite.
  pub Le-finite :
      (a : Option G) {b : G} → Le a (some b) → (x : G) × (a ≡ some x) × (g.lt b x ≡ false)
  Le-finite none h = absurd h
  Le-finite (some a) h = (a, refl, h)

  pub plus_mono : (a b c d : Option G) → Le a b → Le c d → Le (plus a c) (plus b d)
  plus_mono a none c d h k = tt
  plus_mono a (some b) c none h k = tt
  plus_mono none (some b) c (some d) h k = absurd h
  plus_mono (some a) (some b) none (some d) h k = absurd k
  plus_mono (some a) (some b) (some c) (some d) h k = g.plus_mono a b c d h k

  pub plus_assoc : (a b c : Option G) → plus (plus a b) c ≡ plus a (plus b c)
  plus_assoc none b c = refl
  plus_assoc (some a) none c = refl
  plus_assoc (some a) (some b) none = refl
  plus_assoc (some a) (some b) (some c) = ground (arith, g.plus_assoc a b c)

  -- A cost that is not negative.
  abbrev pub NonNeg : Option G → Type 0
  NonNeg = Le (some g.zero)

  pub le-plus_right : (a b : Option G) → NonNeg b → Le a (plus a b)
  le-plus_right none b h = tt
  le-plus_right (some a) none h = tt
  le-plus_right (some a) (some b) h =
      subst (λ x. g.lt (g.plus a b) x ≡ false) (g.plus-zero a)
        (g.plus_mono a a g.zero b (g.le_refl a) h)

  pub le-plus_left : (a b : Option G) → NonNeg b → Le a (plus b a)
  le-plus_left none none h = tt
  le-plus_left none (some b) h = tt
  le-plus_left (some a) none h = tt
  le-plus_left (some a) (some b) h =
      subst (λ x. g.lt (g.plus b a) x ≡ false) (g.zero-plus a)
        (g.plus_mono g.zero b a a h (g.le_refl a))

  pub smaller-le_left : (x s : Option G) → Le (smaller x s) x
  smaller-le_left x none = Le-refl x
  smaller-le_left none (some s) = tt
  smaller-le_left (some c) (some s) = ground (arith, g.le_of_lt s c, g.le_refl c)

  pub smaller-le_right : (x s : Option G) → Le (smaller x s) s
  smaller-le_right x none = tt
  smaller-le_right none (some s) = g.le_refl s
  smaller-le_right (some c) (some s) = ground (arith, g.le_refl s)

  pub smaller-either : (x s : Option G) → (smaller x s ≡ x) ⊎ (smaller x s ≡ s)
  smaller-either x none = inl refl
  smaller-either none (some s) = inr refl
  smaller-either (some c) (some s) = ground arith

  -- Nothing is gained by a cost that is not smaller.
  pub smaller_of_le : (x s : Option G) → Le x s → smaller x s ≡ x
  smaller_of_le x none h = refl
  smaller_of_le none (some s) h = absurd h
  smaller_of_le (some c) (some s) h = ground arith

  -- The three loops.
  unfoldable pub relax : ℕ → ℕ → ℕ → Table G → Table G
  relax k i j c x y = if at i j == at x y then smaller (c i j) (plus (c i k) (c k j)) else c x y

  unfoldable pub relax_row : ℕ → ℕ → List ℕ → Table G → Table G
  relax_row k i [] c = c
  relax_row k i (j ∷ js) c = relax_row k i js (relax k i j c)

  unfoldable pub relax_rows : ℕ → List ℕ → List ℕ → Table G → Table G
  relax_rows k [] js c = c
  relax_rows k (i ∷ is) js c = relax_rows k is js (relax_row k i js c)

  unfoldable pub relax_all : List ℕ → List ℕ → Table G → Table G
  relax_all [] vertices c = c
  relax_all (k ∷ ks) vertices c = relax_all ks vertices (relax_rows k vertices vertices c)

  -- Every sum that the loops compare lies in a range, or is infinite.
  abbrev pub Within : (G → Type 0) → Option G → Type 0
  Within P none = Unit
  Within P (some x) = P x

  unfoldable pub RowFits : (G → Type 0) → ℕ → ℕ → List ℕ → Table G → Type 0
  RowFits P k i [] c = Unit
  RowFits P k i (j ∷ js) c = Within P (plus (c i k) (c k j)) × RowFits P k i js (relax k i j c)

  unfoldable pub RowsFit : (G → Type 0) → ℕ → List ℕ → List ℕ → Table G → Type 0
  RowsFit P k [] js c = Unit
  RowsFit P k (i ∷ is) js c = RowFits P k i js c × RowsFit P k is js (relax_row k i js c)

  unfoldable pub Fits : (G → Type 0) → List ℕ → List ℕ → Table G → Type 0
  Fits P [] vertices c = Unit
  Fits P (k ∷ ks) vertices c =
      RowsFit P k vertices vertices c × Fits P ks vertices (relax_rows k vertices vertices c)

  -- The costs of the initial matrix.
  abbrev pub put : ℕ → ℕ → G → Table G → Table G
  put i j x c a b = if at i j == at a b then some x else c a b

  unfoldable pub put_vertices : List ℕ → Table G → Table G
  put_vertices [] c = c
  put_vertices (v ∷ vertices) c = put_vertices vertices (put v v g.zero c)

  unfoldable pub put_edges : List (Edge G) → Table G → Table G
  put_edges [] c = c
  put_edges (e ∷ edges) c = put_edges edges (put e.pair.source e.pair.target e.cost c)
