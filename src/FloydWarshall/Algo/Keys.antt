-- ===== src/FloydWarshall/Algo/Keys.antt =====
-- pallets/aggregator/src/best_path_calculator/floyd_warshall/algo.rs: the keys of the maps that the
-- calculations return ascend, and they are pairs of vertices of the graph.
use Prim.Native.Nat.Ordering.{lt}
use substrate_aggregator.Prelude.{
  ℕ, ◌≡◌, refl, sym, subst, ◌⊎◌, inl, inr, List, [], ◌∷◌, map, arith, All, Bool, true, false,
  if◌then◌else◌, Ordering, All_of_mem,
}
use substrate_aggregator.Ord.{nat_ord}
use substrate_aggregator.Collections.BTreeMap
use substrate_aggregator.Collections.BTreeMap.{BTreeMap}
use substrate_aggregator.Collections.BTreeMap.Entries.{Ascends, insert-Ascends, insert-All}
use substrate_aggregator.Collections.BTreeSet.{BTreeSet}
use substrate_aggregator.Collections.BTreeSet.Elements
use substrate_aggregator.Types.{pair_ord}
use substrate_aggregator.FloydWarshall.Float.{Float}
use substrate_aggregator.FloydWarshall.Algo.{
  VertexPair, Edge, Matrix, Calculation, ok, err, panic, ◌>>=◌, at, vertices_of, merge_edge,
  merge_edges, unique_cheapest_edges, insert_vertices, insert_edges, relax, relax_row, relax_rows,
  relax_all, check_cycles, floyd_warshall_shortest_paths, shortest_paths,
}

-- What ends well has a first part that does.
pub ok_of_bind :
    {R S : Type 0} (m : Calculation R) (f : R → Calculation S) {s : S}
    → m >>= f ≡ ok s
    → (r : R) × (m ≡ ok r) × (f r ≡ ok s)
ok_of_bind (ok r) f h = (r, refl, h)
ok_of_bind (err e) f h = absurd (cc)
ok_of_bind panic f h = absurd (cc)

pub ok-injective : {A : Type 0} {a b : A} → Calculation.ok a ≡ ok b → a ≡ b
ok-injective h = ground arith

module _ (P : ℕ → Type 0) where
  -- Both vertices of a pair satisfy `P`.
  abbrev pub Both : VertexPair → Type 0
  Both pair = P pair.source × P pair.target

  abbrev pub Ends : {F : Type 0} → List (Edge F) → Type 0
  Ends = All (λ e. Both e.pair)

  -- The keys ascend, and their vertices satisfy `P`.
  abbrev pub Keys : {V : Type 0} → BTreeMap VertexPair V → Type 0
  Keys m = Ascends m × All (λ e. Both e.0) m

  pub insert-Keys :
      {V : Type 0} (k : VertexPair) (v : V) (m : BTreeMap VertexPair V)
      → Both k
      → Keys m
      → Keys (BTreeMap.insert k v m)
  insert-Keys k v m h (ascends, keys) =
      (insert-Ascends k v m ascends, insert-All (λ e. Both e.0) k v m h keys)

  insert_if-Keys :
      {V : Type 0} (b : Bool) (k : VertexPair) (v : V) (m : BTreeMap VertexPair V)
      → Both k
      → Keys m
      → Keys (if b then BTreeMap.insert k v m else m)
  insert_if-Keys true k v m both h = insert-Keys k v m both h
  insert_if-Keys false k v m both h = h

  vertices_of-All :
      {F : Type 0} (es : List (Edge F)) (vertices : BTreeSet ℕ)
      → Ends es
      → All P vertices
      → All P (vertices_of es vertices)
  unfolding vertices_of
  vertices_of-All [] vertices h all = all
  vertices_of-All (e ∷ es) vertices ((source, target), h) all = vertices_of-All es _ h (
      Elements.insert-All P e.pair.target _ target
        (Elements.insert-All P e.pair.source vertices source all))

  module _ {F : Type 0} ⦃fl : Float F⦄ where
    insert_vertices-Keys :
        (vs : List ℕ) (m : Matrix F) → All P vs → Keys m → Keys (insert_vertices vs m)
    unfolding insert_vertices
    insert_vertices-Keys [] m all h = h
    insert_vertices-Keys (v ∷ vs) m (p, all) h =
        insert_vertices-Keys vs _ all (insert-Keys (at v v) _ m (p, p) h)

    insert_edges-Keys :
        (es : List (Edge F)) (m : Matrix F) → Ends es → Keys m → Keys (insert_edges es m)
    unfolding insert_edges
    insert_edges-Keys [] m ends h = h
    insert_edges-Keys (e ∷ es) m (both, ends) h =
        insert_edges-Keys es _ ends (insert-Keys e.pair _ m both h)

    relax_row-Keys :
        (k i : ℕ) (js : List ℕ) (m : Matrix F) → P i → All P js → Keys m → Keys (relax_row k i js m)
    unfolding relax_row relax
    relax_row-Keys k i [] m p all h = h
    relax_row-Keys k i (j ∷ js) m p (q, all) h =
        relax_row-Keys k i js _ p all (insert_if-Keys _ (at i j) _ m (p, q) h)

    relax_rows-Keys :
        (k : ℕ) (is js : List ℕ) (m : Matrix F)
        → All P is
        → All P js
        → Keys m
        → Keys (relax_rows k is js m)
    unfolding relax_rows
    relax_rows-Keys k [] js m rows all h = h
    relax_rows-Keys k (i ∷ is) js m (p, rows) all h =
        relax_rows-Keys k is js _ rows all (relax_row-Keys k i js m p all h)

    relax_all-Keys : (ks vs : List ℕ) (m : Matrix F) → All P vs → Keys m → Keys (relax_all ks vs m)
    unfolding relax_all
    relax_all-Keys [] vs m all h = h
    relax_all-Keys (k ∷ ks) vs m all h =
        relax_all-Keys ks vs _ all (relax_rows-Keys k vs vs m all all h)

    check_cycles-same :
        (vs : List ℕ) (m : Matrix F) {r : Matrix F} → check_cycles vs m ≡ ok r → r ≡ m
    unfolding check_cycles
    check_cycles-same [] m h = ground arith
    check_cycles-same (v ∷ vs) m {r} h =
        ground (arith, λ (e : check_cycles vs m ≡ ok r). check_cycles-same vs m e)

    floyd_warshall-Keys :
        (es : List (Edge F)) {m : Matrix F}
        → floyd_warshall_shortest_paths es ≡ ok m
        → Ends es
        → Keys m
    unfolding floyd_warshall_shortest_paths
    floyd_warshall-Keys es h ends =
        let vs = vertices_of es [] in
        let all = vertices_of-All es [] ends tt in
        subst Keys (sym (check_cycles-same vs _ h)) (
          relax_all-Keys vs vs _ all
            (insert_edges-Keys es _ ends (insert_vertices-Keys vs [] all (tt, tt))))

    merge_edge-cases :
        (ordering : Ordering) (m : BTreeMap VertexPair (Edge F)) (e : Edge F)
        {r : BTreeMap VertexPair (Edge F)}
        → merge_edge ordering m e ≡ ok r
        → (r ≡ BTreeMap.insert e.pair e m) ⊎ (r ≡ m)
    unfolding merge_edge
    merge_edge-cases ordering m e h = ground arith

    -- The edges that are kept for each pair are among the given ones.
    merge_edge-Ends :
        (ordering : Ordering) (m : BTreeMap VertexPair (Edge F)) (e : Edge F)
        {r : BTreeMap VertexPair (Edge F)}
        → merge_edge ordering m e ≡ ok r
        → Both e.pair
        → All (λ x. Both x.1.pair) m
        → All (λ x. Both x.1.pair) r
    merge_edge-Ends ordering m e h both all = elim (merge_edge-cases ordering m e h) [
      | inl same ↦
          subst (All (λ x. Both x.1.pair)) (sym same)
            (insert-All (λ x. Both x.1.pair) e.pair e m both all)
      | inr same ↦ subst (All (λ x. Both x.1.pair)) (sym same) all
    ]

    merge_edges-Ends :
        (ordering : Ordering) (es : List (Edge F)) (m : BTreeMap VertexPair (Edge F))
        {r : BTreeMap VertexPair (Edge F)}
        → merge_edges ordering es m ≡ ok r
        → Ends es
        → All (λ x. Both x.1.pair) m
        → All (λ x. Both x.1.pair) r
    unfolding merge_edges
    merge_edges-Ends ordering [] m h ends all =
        subst (All (λ x. Both x.1.pair)) (ok-injective h) all
    merge_edges-Ends ordering (e ∷ es) m h (both, ends) all =
        let (m', first, rest) = ok_of_bind (merge_edge ordering m e) (merge_edges ordering es) h in
        merge_edges-Ends ordering es m' rest ends (merge_edge-Ends ordering m e first both all)

    values-Ends :
        (m : BTreeMap VertexPair (Edge F)) → All (λ x. Both x.1.pair) m → Ends (map (λ x. x.1) m)
    values-Ends [] h = tt
    values-Ends (x ∷ m) (h, hs) = (h, values-Ends m hs)

    pub unique_cheapest_edges-Ends :
        (es : List (Edge F)) (ordering : Ordering) {kept : List (Edge F)}
        → unique_cheapest_edges es ordering ≡ ok kept
        → Ends es
        → Ends kept
    unfolding unique_cheapest_edges
    unique_cheapest_edges-Ends es ordering h ends =
        let (m, merged, same) = ok_of_bind (merge_edges ordering es []) _ h in
        subst Ends (ok-injective same)
          (values-Ends m (merge_edges-Ends ordering es [] merged ends tt))

    -- The keys of the paths that are returned ascend, and join vertices that edges join.
    pub shortest_paths-Keys :
        (es : List (Edge F)) {m : Matrix F} → shortest_paths es ≡ ok m → Ends es → Keys m
    unfolding shortest_paths
    shortest_paths-Keys es h ends =
        let (kept, unique, rest) =
          ok_of_bind (unique_cheapest_edges es lt) floyd_warshall_shortest_paths h in
        floyd_warshall-Keys kept rest (unique_cheapest_edges-Ends es lt unique ends)

pub shortest_paths-Ascends :
    {F : Type 0} ⦃fl : Float F⦄ (es : List (Edge F)) {m : Matrix F}
    → shortest_paths es ≡ ok m
    → Ascends m
shortest_paths-Ascends es h =
    (shortest_paths-Keys (λ v. Unit) es h (All_of_mem (λ e. Unit × Unit) es λ e m. (tt, tt))).0
