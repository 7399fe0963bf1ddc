-- ===== src/FloydWarshall/Algo/Initial.antt =====
-- The initial matrix of pallets/aggregator/src/best_path_calculator/floyd_warshall/algo.rs.
use substrate_aggregator.Prelude.{
  ℕ, ◌≡◌, ◌≢◌, refl, sym, ap, ◌∙◌, Bool-cases, none, some, List, [], ◌∷◌, inl, inr, subst, arith,
  All, All_of_mem, map, ◌∈◌,
}
use substrate_aggregator.Ord.{nat_ord, ◌==◌, ==_iff, ==_refl}
use substrate_aggregator.Collections.BTreeMap
use substrate_aggregator.Collections.BTreeMap.{get-insert}
use substrate_aggregator.Collections.BTreeMap.Entries.{Distinct}
use substrate_aggregator.Types.{pair_ord}
use substrate_aggregator.FloydWarshall.Float.{Float}
use substrate_aggregator.FloydWarshall.MinPlus.{Costs, Table, Le, put, put_vertices, put_edges}
use substrate_aggregator.FloydWarshall.Algo.{
  Edge, EdgePath, Matrix, at, vertices_of, insert_vertices, insert_edges,
}
use substrate_aggregator.FloydWarshall.Algo.Walk.{
  IsExact, IsWalk, embed_edge, Shows-le, absent, present,
}
use substrate_aggregator.FloydWarshall.Algo.Simulation.{Simulates}

module _ {F : Type 0} where
  -- No two edges join the same vertices in the same direction.
  abbrev pub OnePerPair : List (Edge F) → Type 0
  OnePerPair = Distinct (λ e. e.pair)

module _ {F : Type 0} ⦃fl : Float F⦄ where
  abbrev single : Edge F → EdgePath F
  single e = record { total_cost = e.cost; edges = e ∷ [] }

  get-insert_edges_ne :
      (edges : List (Edge F)) (k : ℕ) (l : ℕ) (m : Matrix F)
      → All (λ x. x.pair ≢ at k l) edges
      → BTreeMap.get (at k l) (insert_edges edges m) ≡ BTreeMap.get (at k l) m
  unfolding insert_edges
  get-insert_edges_ne [] k l m h = refl
  get-insert_edges_ne (e ∷ edges) k l m h =
      get-insert_edges_ne edges k l _ h.1
      ∙ (get-insert e.pair (at k l) (single e) m ∙ ground (arith, ==_iff e.pair (at k l), h.0))

  -- Each edge is the initial path between its ends.
  get-insert_edges :
      (edges : List (Edge F)) (e : Edge F) (m : Matrix F)
      → OnePerPair edges
      → e ∈ edges
      → BTreeMap.get e.pair (insert_edges edges m) ≡ some (single e)
  unfolding insert_edges
  get-insert_edges [] e m one h = absurd h
  get-insert_edges (x ∷ edges) e m one (inr h) = get-insert_edges edges e _ one.1 h
  get-insert_edges (x ∷ edges) e m one (inl h) =
      subst
        (λ y.
          BTreeMap.get y.pair (insert_edges edges (BTreeMap.insert x.pair (single x) m))
          ≡ some (single y))
        h
        (get-insert_edges_ne edges x.pair.source x.pair.target _ one.0
          ∙ (get-insert x.pair x.pair (single x) m ∙ rw (==_refl x.pair)))

  module _ {G : Type 0} ⦃g : Costs G⦄ (embed : G → F) (exact : IsExact embed)
      (graph : List (Edge F)) where
    insert-Simulates :
        (i j : ℕ) (p : EdgePath F) (x : G) (m : Matrix F) (c : Table G)
        → p.total_cost ≡ embed x
        → exact.Exact x
        → IsWalk embed exact graph i j p.edges x
        → Simulates embed exact graph m c
        → Simulates embed exact graph (BTreeMap.insert (at i j) p m) (put i j x c)
    insert-Simulates i j p x m c e small w h a b =
        rw (get-insert (at i j) (at a b) p m) (elim (Bool-cases (at i j == at a b)) [
          | inl same ↦
              let eq = (==_iff (at i j) (at a b)).0 same in
              rw same (rw (← ap (λ q. q.source) eq, ← ap (λ q. q.target) eq) (present e small w))
          | inr other ↦ rw other (h a b)
        ])

    insert_vertices-Simulates :
        (vs : List ℕ) (m : Matrix F) (c : Table G)
        → Simulates embed exact graph m c
        → Simulates embed exact graph (insert_vertices vs m) (put_vertices vs c)
    unfolding insert_vertices put_vertices
    insert_vertices-Simulates [] m c h = h
    insert_vertices-Simulates (v ∷ vs) m c h = insert_vertices-Simulates vs _ _ (
        insert-Simulates v v (record { total_cost = fl.zero; edges = [] }) g.zero m c
          (sym exact.zero_exact) exact.zero_Exact (record { chain = refl; edges = tt; cost = refl })
          h)

    insert_edges-Simulates :
        (edges : List (Edge G)) (m : Matrix F) (c : Table G)
        → All (λ e. e ∈ graph) (map (embed_edge embed) edges)
        → All (λ e. exact.Exact e.cost) edges
        → Simulates embed exact graph m c
        → Simulates embed exact graph
            (insert_edges (map (embed_edge embed) edges) m)
            (put_edges edges c)
    unfolding insert_edges put_edges
    insert_edges-Simulates [] m c sub costs h = h
    insert_edges-Simulates (e ∷ edges) m c sub costs h =
        insert_edges-Simulates edges _ _ sub.1 costs.1 (
          insert-Simulates e.pair.source e.pair.target (single (embed_edge embed e)) e.cost m c refl
            costs.0
            (record {
              chain = (refl, refl);
              edges = (sub.0, tt);
              cost = (e.cost, g.zero, refl, costs.0, refl, sym (g.plus-zero e.cost));
            })
            h)

  insert-present :
      (k j : ℕ) (i l : ℕ) (q p : EdgePath F) (m : Matrix F)
      → BTreeMap.get (at i l) m ≡ some p
      → (r : EdgePath F) × (BTreeMap.get (at i l) (BTreeMap.insert (at k j) q m) ≡ some r)
  insert-present k j i l q p m h = elim (Bool-cases (at k j == at i l)) [
    | inl e ↦ (q, get-insert (at k j) (at i l) q m ∙ rw e)
    | inr e ↦ (p, get-insert (at k j) (at i l) q m ∙ rw e h)
  ]

  insert_edges-present :
      (edges : List (Edge F)) (i l : ℕ) (p : EdgePath F) (m : Matrix F)
      → BTreeMap.get (at i l) m ≡ some p
      → (r : EdgePath F) × (BTreeMap.get (at i l) (insert_edges edges m) ≡ some r)
  unfolding insert_edges
  insert_edges-present [] i l p m h = (p, h)
  insert_edges-present (e ∷ edges) i l p m h =
      let (q, h') = insert-present e.pair.source e.pair.target i l (single e) p m h in
      insert_edges-present edges i l q _ h'

  insert_vertices-keeps :
      (vs : List ℕ) (i : ℕ) (p : EdgePath F) (m : Matrix F)
      → BTreeMap.get (at i i) m ≡ some p
      → (r : EdgePath F) × (BTreeMap.get (at i i) (insert_vertices vs m) ≡ some r)
  unfolding insert_vertices
  insert_vertices-keeps [] i p m h = (p, h)
  insert_vertices-keeps (v ∷ vs) i p m h =
      let (q, h') = insert-present v v i i (record { total_cost = fl.zero; edges = [] }) p m h in
      insert_vertices-keeps vs i q _ h'

  insert_vertices-present :
      (vs : List ℕ) (v : ℕ) (m : Matrix F)
      → v ∈ vs
      → (r : EdgePath F) × (BTreeMap.get (at v v) (insert_vertices vs m) ≡ some r)
  unfolding insert_vertices
  insert_vertices-present [] v m h = absurd h
  insert_vertices-present (u ∷ vs) v m (inr h) = insert_vertices-present vs v _ h
  insert_vertices-present (u ∷ vs) v m (inl e) =
      let p : EdgePath F = record { total_cost = fl.zero; edges = [] } in
      insert_vertices-keeps vs v p _ (
        subst (λ z. BTreeMap.get (at z z) (BTreeMap.insert (at u u) p m) ≡ some p) e
          (get-insert (at u u) (at u u) p m ∙ rw (==_refl (at u u))))

  -- The initial matrix.
  abbrev pub initial : List (Edge F) → Matrix F
  initial edges = insert_edges edges (insert_vertices (vertices_of edges []) [])

  pub initial-present :
      (edges : List (Edge F)) (v : ℕ)
      → v ∈ vertices_of edges []
      → (p : EdgePath F) × (BTreeMap.get (at v v) (initial edges) ≡ some p)
  initial-present edges v h =
      let (p, e) = insert_vertices-present (vertices_of edges []) v [] h in
      insert_edges-present edges v v p _ e

  module _ {G : Type 0} ⦃g : Costs G⦄ (embed : G → F) (exact : IsExact embed)
      (graph : List (Edge G)) where
    abbrev edges : List (Edge F)
    edges = map (embed_edge embed) graph

    -- The costs that it shows.
    abbrev pub initial_costs : Table G
    initial_costs = put_edges graph (put_vertices (vertices_of edges []) (λ i j. none))

    pub initial-Simulates :
        All (λ e. exact.Exact e.cost) graph
        → Simulates embed exact edges (initial edges) initial_costs
    unfolding BTreeMap.get
    initial-Simulates costs =
        insert_edges-Simulates embed exact edges graph _ _
          (All_of_mem (λ e. e ∈ edges) edges (λ e h. h)) costs
          (insert_vertices-Simulates embed exact edges (vertices_of edges []) [] (λ i j. none)
            (λ i j. absent))

    -- No edge is shorter than the path that it shows between the edge's ends.
    pub initial-le :
        (e : Edge G)
        → OnePerPair edges
        → All (λ e. exact.Exact e.cost) graph
        → exact.Exact e.cost
        → embed_edge embed e ∈ edges
        → Le (initial_costs e.pair.source e.pair.target) (some e.cost)
    initial-le e one costs small m =
        Shows-le embed exact edges e.cost small
          (initial-Simulates costs e.pair.source e.pair.target)
          (get-insert_edges edges (embed_edge embed e) (insert_vertices (vertices_of edges []) [])
            one m)
          refl
