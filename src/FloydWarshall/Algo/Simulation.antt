-- ===== src/FloydWarshall/Algo/Simulation.antt =====
-- The loops of pallets/aggregator/src/best_path_calculator/floyd_warshall/algo.rs follow the loops on
-- exact costs: each entry of the matrix is a walk that has the cost of the table.
use substrate_aggregator.Prelude.{
  ℕ, ◌≡◌, ap, ◌∙◌, true, false, Bool-cases, Option, none, some, List, [], ◌∷◌, ◌++◌, inl, inr,
  if◌then◌else◌, arith,
}
use substrate_aggregator.Ord.{nat_ord, ◌==◌, ==_iff}
use substrate_aggregator.Collections.BTreeMap
use substrate_aggregator.Collections.BTreeMap.{get-insert, get-insert_if}
use substrate_aggregator.Types.{pair_ord}
use substrate_aggregator.FloydWarshall.Float.{Float}
use substrate_aggregator.FloydWarshall.MinPlus
use substrate_aggregator.FloydWarshall.MinPlus.{
  Costs, Table, plus, smaller, Within, RowFits, RowsFit, Fits,
}
use substrate_aggregator.FloydWarshall.Algo.{
  Edge, EdgePath, Matrix, at, or_infinite, improves, relax, relax_row, relax_rows, relax_all,
}
use substrate_aggregator.FloydWarshall.Algo.Walk.{IsExact, IsWalk-append, Shows, absent, present}

module _ {F : Type 0} ⦃fl : Float F⦄ where
  -- What the body of the loops leaves at its pair, from the three entries that it reads.
  relaxed : Option (EdgePath F) → Option (EdgePath F) → Option (EdgePath F) → Option (EdgePath F)
  relaxed ij ik kj =
      let cost = fl.add (or_infinite ik).total_cost (or_infinite kj).total_cost in
      if improves cost (or_infinite ij).total_cost
      then some
          (record { total_cost = cost; edges = (or_infinite ik).edges ++ (or_infinite kj).edges })
      else ij

  get-relax :
      (k i j x y : ℕ) (m : Matrix F)
      → BTreeMap.get (at x y) (relax k i j m) ≡ (
          if at i j == at x y
          then relaxed (BTreeMap.get (at i j) m) (BTreeMap.get (at i k) m) (BTreeMap.get (at k j) m)
          else BTreeMap.get (at x y) m)
  unfolding relax relaxed
  get-relax k i j x y m = get-insert_if _ (at i j) (at x y) _ m

  relaxed_refused :
      (ij ik kj : Option (EdgePath F))
      → improves
          (fl.add (or_infinite ik).total_cost (or_infinite kj).total_cost)
          (or_infinite ij).total_cost
        ≡ false
      → relaxed ij ik kj ≡ ij
  unfolding relaxed
  relaxed_refused ij ik kj h = rw h

  joined : Option (EdgePath F) → Option (EdgePath F) → EdgePath F
  joined ik kj = record {
    total_cost = fl.add (or_infinite ik).total_cost (or_infinite kj).total_cost;
    edges = (or_infinite ik).edges ++ (or_infinite kj).edges;
  }

  relaxed_taken :
      (ij ik kj : Option (EdgePath F))
      → improves
          (fl.add (or_infinite ik).total_cost (or_infinite kj).total_cost)
          (or_infinite ij).total_cost
        ≡ true
      → relaxed ij ik kj ≡ some (joined ik kj)
  unfolding relaxed joined
  relaxed_taken ij ik kj h = rw h

  module _ {G : Type 0} ⦃g : Costs G⦄ (embed : G → F) (exact : IsExact embed)
      (graph : List (Edge F)) where
    -- An absent path makes no other one shorter.
    improves_absent :
        (i j : ℕ) {ij : Option (EdgePath F)} {x : Option G}
        → Shows embed exact graph i j ij x
        → improves (fl.add fl.max_value fl.max_value) (or_infinite ij).total_cost ≡ false
    improves_absent i j absent = ground (arith, exact.max_max-max)
    improves_absent i j (present {p = p} {x = x} e small w) =
        ground (arith, exact.add_max-max x small)

    sum_exact :
        (q r : EdgePath F) (b c : G)
        → q.total_cost ≡ embed b
        → r.total_cost ≡ embed c
        → exact.Exact b
        → exact.Exact c
        → exact.Exact (g.plus b c)
        → fl.add q.total_cost r.total_cost ≡ embed (g.plus b c)
    sum_exact q r b c e e' hb hc sum = rw (e, e') (exact.add_exact b c hb hc sum)

    relaxed-Shows :
        (i k j : ℕ) {ij ik kj : Option (EdgePath F)} {x y z : Option G}
        → Shows embed exact graph i j ij x
        → Shows embed exact graph i k ik y
        → Shows embed exact graph k j kj z
        → Within exact.Exact (plus y z)
        → Shows embed exact graph i j (relaxed ij ik kj) (smaller x (plus y z))
    unfolding joined
    relaxed-Shows i k j {ij = ij} h absent absent fits =
        rw (relaxed_refused ij none none (improves_absent i j h)) h
    relaxed-Shows i k j {ij = ij} h (present {p = q} {x = b} e small w) absent fits =
        let refused : improves (fl.add q.total_cost fl.max_value) (or_infinite ij).total_cost
            ≡ false =
          rw (e, exact.add-max_right b small) in
        rw (relaxed_refused ij (some q) none refused) h
    relaxed-Shows i k j {ij = ij} h absent (present {p = r} {x = c} e small w) fits =
        let refused : improves (fl.add fl.max_value r.total_cost) (or_infinite ij).total_cost
            ≡ false =
          rw (e, exact.add-max_left c small) in
        rw (relaxed_refused ij none (some r) refused) h
    relaxed-Shows i k j absent (present {p = q} {x = b} e hb w) (present {p = r} {x = c} e' hc w')
          fits =
        let sum = sum_exact q r b c e e' hb hc fits in
        let taken : improves (fl.add q.total_cost r.total_cost) fl.max_value ≡ true =
          rw (sum, exact.ne_max (g.plus b c) fits, exact.lt_max (g.plus b c) fits) in
        rw (relaxed_taken none (some q) (some r) taken)
          (present sum fits (IsWalk-append embed exact graph i k j q.edges r.edges b c w w'))
    relaxed-Shows i k j (present {p = p} {x = a} e₀ ha w₀) (present {p = q} {x = b} e hb w)
          (present {p = r} {x = c} e' hc w') fits =
        let sum = sum_exact q r b c e e' hb hc fits in
        let test : improves (fl.add q.total_cost r.total_cost) p.total_cost ≡ g.lt (g.plus b c) a =
          rw (sum, e₀, exact.ne_max (g.plus b c) fits) (exact.lt_exact (g.plus b c) a fits ha) in
        elim (Bool-cases (g.lt (g.plus b c) a)) [
          | inl less ↦
              rw (relaxed_taken (some p) (some q) (some r) (test ∙ less), less)
                (present sum fits (IsWalk-append embed exact graph i k j q.edges r.edges b c w w'))
          | inr not_less ↦
              rw (relaxed_refused (some p) (some q) (some r) (test ∙ not_less), not_less)
                (present e₀ ha w₀)
        ]

    -- The matrix shows the table.
    abbrev pub Simulates : Matrix F → Table G → Type 0
    Simulates m c = (i j : ℕ) → Shows embed exact graph i j (BTreeMap.get (at i j) m) (c i j)

    relax-Simulates :
        (k i j : ℕ) (m : Matrix F) (c : Table G)
        → Simulates m c
        → Within exact.Exact (plus (c i k) (c k j))
        → Simulates (relax k i j m) (MinPlus.relax k i j c)
    unfolding MinPlus.relax
    relax-Simulates k i j m c h fits x y =
        rw (get-relax k i j x y m) (elim (Bool-cases (at i j == at x y)) [
          | inl e ↦
              let same = (==_iff (at i j) (at x y)).0 e in
              rw e (
                rw (← ap (λ p. p.source) same, ← ap (λ p. p.target) same)
                  (relaxed-Shows i k j (h i j) (h i k) (h k j) fits))
          | inr e ↦ rw e (h x y)
        ])

    relax_row-Simulates :
        (k i : ℕ) (js : List ℕ) (m : Matrix F) (c : Table G)
        → Simulates m c
        → RowFits exact.Exact k i js c
        → Simulates (relax_row k i js m) (MinPlus.relax_row k i js c)
    unfolding relax_row MinPlus.relax_row RowFits
    relax_row-Simulates k i [] m c h fits = h
    relax_row-Simulates k i (j ∷ js) m c h fits =
        relax_row-Simulates k i js _ _ (relax-Simulates k i j m c h fits.0) fits.1

    relax_rows-Simulates :
        (k : ℕ) (is js : List ℕ) (m : Matrix F) (c : Table G)
        → Simulates m c
        → RowsFit exact.Exact k is js c
        → Simulates (relax_rows k is js m) (MinPlus.relax_rows k is js c)
    unfolding relax_rows MinPlus.relax_rows RowsFit
    relax_rows-Simulates k [] js m c h fits = h
    relax_rows-Simulates k (i ∷ is) js m c h fits =
        relax_rows-Simulates k is js _ _ (relax_row-Simulates k i js m c h fits.0) fits.1

    -- The three loops keep the matrix in step with the table.
    pub relax_all-Simulates :
        (ks vs : List ℕ) (m : Matrix F) (c : Table G)
        → Simulates m c
        → Fits exact.Exact ks vs c
        → Simulates (relax_all ks vs m) (MinPlus.relax_all ks vs c)
    unfolding relax_all MinPlus.relax_all Fits
    relax_all-Simulates [] vs m c h fits = h
    relax_all-Simulates (k ∷ ks) vs m c h fits =
        relax_all-Simulates ks vs _ _ (relax_rows-Simulates k vs vs m c h fits.0) fits.1
