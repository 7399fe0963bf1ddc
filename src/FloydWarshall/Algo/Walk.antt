-- ===== src/FloydWarshall/Algo/Walk.antt =====
-- What the paths of pallets/aggregator/src/best_path_calculator/floyd_warshall/algo.rs are to be:
-- walks along the edges of the graph, with their costs.
use mathlib.Core.Option.{some-injective}
use substrate_aggregator.Prelude.{
  ℕ, ◌≡◌, refl, sym, ap, ◌∙◌, true, false, Option, none, some, List, [], ◌∷◌, ◌++◌, All, All-append,
  ◌∈◌, subst,
}
use substrate_aggregator.FloydWarshall.Float.{Float}
use substrate_aggregator.FloydWarshall.MinPlus.{Costs, Le}
use substrate_aggregator.FloydWarshall.Algo.{Edge, EdgePath}

-- Floating point numbers that stand for exact costs, as those that represent integers do: within
-- the range `Exact` no sum is rounded, `<` is that of the costs, and `f64::MAX` is larger and
-- absorbs them. For `f64` and integers the range is from -2^53 to 2^53.
pub record IsExact {F G : Type 0} ⦃fl : Float F⦄ ⦃g : Costs G⦄ (embed : G → F) : Type 1 where
  pub Exact : G → Type 0
  pub zero_Exact : Exact g.zero
  pub zero_exact : embed g.zero ≡ fl.zero
  pub add_exact :
      (a b : G)
      → Exact a
      → Exact b
      → Exact (g.plus a b)
      → fl.add (embed a) (embed b) ≡ embed (g.plus a b)
  pub lt_exact : (a b : G) → Exact a → Exact b → fl.lt (embed a) (embed b) ≡ g.lt a b
  pub ne_max : (a : G) → Exact a → fl.eq (embed a) fl.max_value ≡ false
  pub lt_max : (a : G) → Exact a → fl.lt (embed a) fl.max_value ≡ true
  pub add-max_left : (a : G) → Exact a → fl.eq (fl.add fl.max_value (embed a)) fl.max_value ≡ true
  pub add-max_right : (a : G) → Exact a → fl.eq (fl.add (embed a) fl.max_value) fl.max_value ≡ true
  pub add_max-max : (a : G) → Exact a → fl.lt (fl.add fl.max_value fl.max_value) (embed a) ≡ false
  pub max_max-max : fl.lt (fl.add fl.max_value fl.max_value) fl.max_value ≡ false

module _ {F : Type 0} where
  -- Consecutive edges, from one vertex to another.
  abbrev pub Chain : ℕ → ℕ → List (Edge F) → Type 0
  Chain i j [] = i ≡ j
  Chain i j (e ∷ es) = (e.pair.source ≡ i) × Chain e.pair.target j es

  pub Chain-append :
      (i k j : ℕ) (xs ys : List (Edge F)) → Chain i k xs → Chain k j ys → Chain i j (xs ++ ys)
  Chain-append i k j [] ys h h' = subst (λ v. Chain v j ys) (sym h) h'
  Chain-append i k j (e ∷ xs) ys h h' = (h.0, Chain-append e.pair.target k j xs ys h.1 h')

module _ {F G : Type 0} ⦃fl : Float F⦄ ⦃g : Costs G⦄ (embed : G → F) (exact : IsExact embed) where
  -- The exact cost of a list of edges, each of which has an exact one.
  abbrev pub HasCost : List (Edge F) → G → Type 0
  HasCost [] x = x ≡ g.zero
  HasCost (e ∷ es) x =
      (a : G) × (b : G) × (e.cost ≡ embed a) × exact.Exact a × HasCost es b × (x ≡ g.plus a b)

  pub HasCost-append :
      (xs ys : List (Edge F)) (x y : G)
      → HasCost xs x
      → HasCost ys y
      → HasCost (xs ++ ys) (g.plus x y)
  HasCost-append [] ys x y h k = subst (HasCost ys) (sym (ap (λ z. g.plus z y) h ∙ g.zero-plus y)) k
  HasCost-append (e ∷ xs) ys x y (a, b, cost, small, rest, sum) k = (
    a,
    g.plus b y,
    cost,
    small,
    HasCost-append xs ys b y rest k,
    ap (λ z. g.plus z y) sum ∙ g.plus_assoc a b y,
  )

  -- A walk along edges of the graph with its cost.
  pub record IsWalk (graph : List (Edge F)) (i j : ℕ) (es : List (Edge F)) (x : G) : Type 0 where
    pub chain : Chain i j es
    pub edges : All (λ e. e ∈ graph) es
    pub cost : HasCost es x

  pub IsWalk-append :
      (graph : List (Edge F)) (i k j : ℕ) (xs ys : List (Edge F)) (x y : G)
      → IsWalk graph i k xs x
      → IsWalk graph k j ys y
      → IsWalk graph i j (xs ++ ys) (g.plus x y)
  IsWalk-append graph i k j xs ys x y h h' = record {
    chain = Chain-append i k j xs ys h.chain h'.chain;
    edges = All-append (λ e. e ∈ graph) xs ys h.edges h'.edges;
    cost = HasCost-append xs ys x y h.cost h'.cost;
  }

-- The edge with a float for its cost.
abbrev pub embed_edge : {F G : Type 0} → (G → F) → Edge G → Edge F
embed_edge embed e = record { pair = e.pair; provider = e.provider; cost = embed e.cost }

module _ {F G : Type 0} ⦃fl : Float F⦄ ⦃g : Costs G⦄ (embed : G → F) (exact : IsExact embed)
    (graph : List (Edge F)) where
  -- The entry of the matrix at a pair, against the cost that it is to have.
  pub data Shows (i j : ℕ) : Option (EdgePath F) → Option G → Type 0 where
    absent : Shows i j none none
    present :
        {p : EdgePath F} {x : G}
        → p.total_cost ≡ embed x
        → exact.Exact x
        → IsWalk embed exact graph i j p.edges x
        → Shows i j (some p) (some x)

  -- What a present entry shows.
  pub Shows-some :
      {i j : ℕ} {o : Option (EdgePath F)} {y : Option G} {p : EdgePath F}
      → Shows i j o y
      → o ≡ some p
      → (x : G) × (y ≡ some x)
        × (p.total_cost ≡ embed x)
        × exact.Exact x
        × IsWalk embed exact graph i j p.edges x
  Shows-some absent h = absurd (cc)
  Shows-some {i} {j} (present {p = q} {x = x} e small w) h =
      let same = some-injective _ _ h in
      (
        x,
        refl,
        sym (ap (λ r. r.total_cost) same) ∙ e,
        small,
        subst (λ r. IsWalk embed exact graph i j r.edges x) same w,
      )

  -- A finite cost is that of a present entry.
  pub Shows-finite :
      {i j : ℕ} {o : Option (EdgePath F)} {y : Option G} {x : G}
      → Shows i j o y
      → y ≡ some x
      → (p : EdgePath F) × (o ≡ some p)
        × (p.total_cost ≡ embed x)
        × IsWalk embed exact graph i j p.edges x
  Shows-finite absent h = absurd (cc)
  Shows-finite {i} {j} (present {p = p} {x = x} e small w) h =
      let same = some-injective _ _ h in
      (p, refl, e ∙ ap embed same, subst (IsWalk embed exact graph i j p.edges) same w)

  -- A path of a known cost shows no larger one.
  pub Shows-le :
      {i j : ℕ} {o : Option (EdgePath F)} {y : Option G} {p : EdgePath F} (a : G)
      → exact.Exact a
      → Shows i j o y
      → o ≡ some p
      → p.total_cost ≡ embed a
      → Le y (some a)
  Shows-le a small h e cost =
      let (x, at_x, cost', small', w) = Shows-some h e in
      rw at_x (
        sym (exact.lt_exact a x small small')
        ∙ (ap (fl.lt (embed a)) (sym cost' ∙ cost)
            ∙ (exact.lt_exact a a small small ∙ g.le_refl a)))
