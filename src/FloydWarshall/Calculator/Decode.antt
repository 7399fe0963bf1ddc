-- ===== src/FloydWarshall/Calculator/Decode.antt =====
-- pallets/aggregator/src/best_path_calculator/floyd_warshall/calculator.rs: the matrix of routes is
-- turned into a map of price paths.
use mathlib.Core.Path.{ap₂}
use mathlib.Core.Option.{some-injective}
use substrate_aggregator.Prelude.{
  false, ℕ, ◌≡◌, refl, sym, ap, ◌∙◌, subst, some, List, [], ◌∷◌, ◌∈◌, map, All, All-mem, get_elem?,
}
use substrate_aggregator.Ord.{Ord, nat_ord, tuple_ord}
use substrate_aggregator.Collections.BTreeMap
use substrate_aggregator.Collections.BTreeMap.{BTreeMap}
use substrate_aggregator.Collections.BTreeMap.Entries.{mem_of_get, get_of_mem}
use substrate_aggregator.Types.{Pair, ProviderPair, PricePath, pair_ord}
use substrate_aggregator.Pallet.State.{Amount}
use substrate_aggregator.FloydWarshall.Float.{Float, FloatMul, FloatCast}
use substrate_aggregator.FloydWarshall.MinPlus.{Costs}
use substrate_aggregator.FloydWarshall.Algo.{VertexPair, Edge, EdgePath, Matrix, at}
use substrate_aggregator.FloydWarshall.Algo.Walk.{IsExact, Chain, embed_edge}
use substrate_aggregator.FloydWarshall.Algo.Keys.{Both, Keys}
use substrate_aggregator.FloydWarshall.Longest.{product}
use substrate_aggregator.FloydWarshall.Longest.Routes.{weight, IsPricedPath}
use substrate_aggregator.FloydWarshall.Calculator.{
  Step, traverse, ◌>>=◌, give, amount_of, currencies_of, providers_of, named_path, collect,
}
use substrate_aggregator.FloydWarshall.Calculator.Numbers.{currencies_of-Ascends}
use substrate_aggregator.FloydWarshall.Calculator.Positions.{
  index_of, name_of_index_of, index_of_position,
}
use substrate_aggregator.FloydWarshall.Calculator.Priced.{float_of}
use substrate_aggregator.FloydWarshall.Calculator.Collected.{
  give-injective, Traverses, traverse-total, get-collect_mem, get-collect_of_mem,
}
use substrate_aggregator.FloydWarshall.Calculator.Hops.{
  Linked, to_edges, Linked-Chain, IsPricePath, named_path-IsPricePath,
}
use substrate_aggregator.FloydWarshall.Calculator.Best.{
  kept_price, kept_edges, IsKept, hops_weight, BestPricePaths, Routes, IsNamed, Route, offered_hops,
}

module _ {C A F G : Type 0} ⦃oc : Ord C⦄ ⦃a : Amount A⦄ ⦃fl : Float F⦄ ⦃fm : FloatMul F⦄
    ⦃fc : FloatCast F⦄ ⦃g : Costs G⦄ ⦃o : Ord G⦄ (embed : G → F) (exact : IsExact embed)
    (weigh : ℕ → G) (prices : List (ProviderPair C × A))
    (fits : (x : F) → (amount : A) × (amount_of {A = A} x ≡ give amount)) where
  abbrev currencies : List C
  currencies = currencies_of prices []

  abbrev name_path : VertexPair × EdgePath F → Step (Pair C × PricePath C A)
  name_path = named_path currencies (providers_of prices [])

  abbrev number_pair : Pair C → VertexPair
  number_pair pair = at (index_of pair.source currencies) (index_of pair.target currencies)

  abbrev Kept : List (ProviderPair C × A) → Type 0
  Kept = IsKept {F = F} embed exact weigh prices

  -- The number of a name.
  number_of : (v : ℕ) (c : C) → get_elem? currencies v ≡ some c → v ≡ index_of c currencies
  number_of v c h = sym (index_of_position currencies v (currencies_of-Ascends prices [] tt) h)

  -- A route of the matrix with the names of its ends.
  decoded_path :
      (v : VertexPair) (q : EdgePath F) (es : List (Edge ℕ)) (pair : Pair C)
      → IsPricedPath embed exact float_of weigh (kept_edges prices) q es
      → Route embed exact weigh prices v.source v.target es
      → get_elem? currencies v.source ≡ some pair.source
      → get_elem? currencies v.target ≡ some pair.target
      → (path : PricePath C A) × (hops : List (ProviderPair C × A)) × (name_path (v, q)
          ≡ give (pair, path))
        × IsPricePath prices F pair path hops
        × (to_edges prices hops ≡ es)
  decoded_path v q es pair priced route source target =
      let (hops, m, same) = offered_hops embed exact weigh prices v.source v.target es route in
      let (path, named, fine) =
        named_path-IsPricePath prices F fits v pair.source pair.target q hops source target m
          (subst (Chain v.source v.target) (sym same) route.chain)
          (priced.edges ∙ ap (map (embed_edge float_of)) (sym same))
          (priced.total ∙ ap (λ x. product (map (embed_edge float_of) x)) (sym same)) in
      (path, hops, named, fine, same)

  module _ (m : Matrix F) (routes : Routes embed exact weigh prices m)
      (keys : Keys (IsNamed prices) m) where
    -- An entry of the matrix: its vertices are the numbers of a pair, and its path gets the names
    -- of prices.
    record Decoded (v : VertexPair) (q : EdgePath F) (pair : Pair C) : Type 0 where
      path : PricePath C A
      hops : List (ProviderPair C × A)
      named : name_path (v, q) ≡ give (pair, path)
      fine : IsPricePath prices F pair path hops
      kept : Kept hops
      vertices : v ≡ number_pair pair

    decode : (v : VertexPair) (q : EdgePath F) → (v, q) ∈ m → (pair : Pair C) × Decoded v q pair
    decode v q entry =
        let ((c, source), (d, target)) =
          All-mem (λ (e : VertexPair × EdgePath F). Both (IsNamed prices) e.0) (v, q) m keys.1
            entry in
        let (es, priced, route) =
          routes.routes v.source v.target q (get_of_mem v q m keys.0 entry) in
        let pair : Pair C = record { source = c; target = d } in
        let (path, hops, named, fine, same) = decoded_path v q es pair priced route source target in
        (
          pair,
          record {
            path = path;
            hops = hops;
            named = named;
            fine = fine;
            kept = subst (All (λ e. e ∈ (kept_edges prices))) (sym same) route.edges;
            vertices = ap₂ at (number_of v.source c source) (number_of v.target d target);
          },
        )

    -- A result of the loop stands for the entry of its pair's numbers.
    result_of :
        (results : List (Pair C × PricePath C A))
        → Traverses name_path m results
        → (pair : Pair C) (path : PricePath C A) → (pair, path) ∈ results
        → (q : EdgePath F) × (BTreeMap.get (number_pair pair) m ≡ some q)
          × (name_path (number_pair pair, q) ≡ give (pair, path))
          × ((hops : List (ProviderPair C × A)) × IsPricePath prices F pair path hops × Kept hops)
    result_of results t pair path found =
        let ((v, q), entry, e) = t.sources (pair, path) found in
        let (pair', d) = decode v q entry in
        let both = give-injective (sym d.named ∙ e) in
        let same : pair' ≡ pair = ap (λ (x : Pair C × PricePath C A). x.0) both in
        let at_pair = d.vertices ∙ ap number_pair same in
        (
          q,
          subst (λ w. BTreeMap.get w m ≡ some q) at_pair (get_of_mem v q m keys.0 entry),
          subst (λ w. name_path (w, q) ≡ give (pair, path)) at_pair e,
          (
            d.hops,
            subst (λ (x : Pair C × PricePath C A). IsPricePath prices F x.0 x.1 d.hops) both d.fine,
            d.kept,
          ),
        )

    -- Prices that link two currencies by kept ones have a path between these, of no larger sum.
    best_path :
        (results : List (Pair C × PricePath C A))
        → Traverses name_path m results
        → (pair : Pair C) (hop : ProviderPair C × A) (hops : List (ProviderPair C × A))
        → Linked pair.source pair.target (hop ∷ hops)
        → Kept (hop ∷ hops)
        → (path : PricePath C A) × (found : List (ProviderPair C × A)) × (BTreeMap.get pair
              (collect results [])
            ≡ some path)
          × IsPricePath prices F pair path found
          × Kept found
          × (g.lt
                (hops_weight {F = F} embed exact weigh prices (hop ∷ hops))
                (hops_weight {F = F} embed exact weigh prices found)
              ≡ false)
    best_path results t pair hop hops linked kept =
        let chain = Linked-Chain prices (hop ∷ hops) _ _ linked in
        let (q, es, found, priced, route, less) =
          routes.best _ _ _ _ (record { chain = chain; edges = kept }) in
        let entry = mem_of_get (number_pair pair) m found in
        let ((c, source), (d, target)) =
          All-mem (λ (e : VertexPair × EdgePath F). Both (IsNamed prices) e.0) (number_pair pair, q)
            m keys.1 entry in
        let (path, others, named, fine, same) =
          decoded_path (number_pair pair) q es pair priced route
            (source ∙ ap some (name_of_index_of pair.source currencies source))
            (target ∙ ap some (name_of_index_of pair.target currencies target)) in
        (
          path,
          others,
          get-collect_of_mem pair path results
              (λ other m'.
                let (q', found', named', _) = result_of results t pair other m' in
                let same_q = some-injective _ _ (sym found' ∙ found) in
                ap (λ (x : Pair C × PricePath C A). x.1)
                  (give-injective
                    (sym named' ∙ (ap (λ x. name_path (number_pair pair, x)) same_q ∙ named))))
              (t.results _ _ entry named),
          fine,
          subst (All (λ e. e ∈ (kept_edges prices))) (sym same) route.edges,
          ap
                (λ x.
                  g.lt (hops_weight {F = F} embed exact weigh prices (hop ∷ hops))
                    (weight embed exact float_of weigh x))
                same
              ∙ less,
        )

    results-BestPricePaths :
        (results : List (Pair C × PricePath C A))
        → Traverses name_path m results
        → BestPricePaths embed exact weigh prices (collect results [])
    results-BestPricePaths results t = record {
      paths = λ pair path found.
          (result_of results t pair path (get-collect_mem pair path results found)).3;
      best = best_path results t;
      covers = λ pp cost offered.
          let (hop, linked, kept) = kept_price embed exact weigh prices pp cost offered in
          let (path, _, found, _, _, _) = best_path results t pp.pair hop [] linked kept in
          (path, found);
      no_gain = λ c hop hops linked kept.
          routes.no_gain _ _ _
            (record { chain = Linked-Chain prices (hop ∷ hops) _ _ linked; edges = kept });
    }

    pub named_matrix :
        (result : BTreeMap (Pair C) (PricePath C A)) × ((traverse name_path m >>= λ named.
        give (collect named []))
          ≡ give result)
        × BestPricePaths embed exact weigh prices result
    named_matrix =
        let (results, t) =
          traverse-total name_path m
            λ (v, q) entry. let (pair, d) = decode v q entry in ((pair, d.path), d.named) in
        (collect results [], rw t.done refl, results-BestPricePaths results t)
