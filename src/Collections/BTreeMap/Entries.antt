-- ===== src/Collections/BTreeMap/Entries.antt =====
-- The entries of a `BTreeMap`: their keys ascend, each key stands once, and an entry stands in the
-- list exactly if it is what `get` finds.
use Prim.Native.Nat.Ordering.{lt, eq, gt}
use mathlib.Core.Option
use mathlib.Core.Option.{some-injective}
use substrate_aggregator.Prelude.{
  ◌≡◌, ◌≢◌, refl, sym, ap, ◌∙◌, inl, inr, Option, some, List, [], ◌∷◌, map, arith, All, All-map,
  All-mem, ◌∈◌, false, Bool-cases, Ordering,
}
use substrate_aggregator.Ord.{Ord, ◌==◌, ==_iff, ==_refl}
use substrate_aggregator.Collections.BTreeMap.{BTreeMap, get, insert}

module _ {K V : Type 0} where
  -- No two elements have one key.
  abbrev pub Distinct : (V → K) → List V → Type 0
  Distinct key [] = Unit
  Distinct key (v ∷ vs) = All (λ x. key x ≢ key v) vs × Distinct key vs

module _ {K : Type 0} ⦃o : Ord K⦄ where
  lt_of_gt : (a b : K) → o.cmp a b ≡ gt → o.cmp b a ≡ lt
  lt_of_gt a b h = o.cmp_swap a b ∙ rw h refl

  ne_of_lt : (j k : K) → o.cmp j k ≡ lt → (j == k) ≡ false
  ne_of_lt j k h = ground arith

module _ {K V : Type 0} ⦃o : Ord K⦄ where
  -- The keys ascend.
  abbrev pub Ascends : BTreeMap K V → Type 0
  Ascends [] = Unit
  Ascends ((k, v) ∷ m) = All (λ e. o.cmp k e.0 ≡ lt) m × Ascends m

  pub insert-All :
      (P : K × V → Type 0) (k : K) (v : V) (m : BTreeMap K V)
      → P (k, v)
      → All P m
      → All P (insert k v m)
  unfolding insert
  insert-All P k v [] h hs = (h, tt)
  insert-All P k v ((j, w) ∷ m) h (h', hs) = ground (arith, insert-All P k v m h hs)

  pub insert-Ascends : (k : K) (v : V) (m : BTreeMap K V) → Ascends m → Ascends (insert k v m)
  unfolding insert
  insert-Ascends k v [] h = (tt, tt)
  insert-Ascends k v ((j, w) ∷ m) (above, rest) = go (o.cmp k j) refl (insert-Ascends k v m rest)
    where
      go :
          (c : Ordering)
          → o.cmp k j ≡ c
          → Ascends (insert k v m)
          → Ascends
              (elim c [ lt ↦ (k, v) ∷ (j, w) ∷ m | eq ↦ (k, v) ∷ m | gt ↦ (j, w) ∷ insert k v m ])
      go lt e ih = ((e, All-map m (λ x h. o.lt_trans k j x.0 e h) above), (above, rest))
      go eq e ih = (All-map m (λ x h. rw (o.eq_of_cmp k j e) h) above, rest)
      go gt e ih = (insert-All (λ x. o.cmp j x.0 ≡ lt) k v m (lt_of_gt k j e) above, ih)

  -- What `get` finds is an entry.
  pub mem_of_get : (k : K) {v : V} (m : BTreeMap K V) → get k m ≡ some v → (k, v) ∈ m
  unfolding get
  mem_of_get k [] h = absurd (cc)
  mem_of_get k {v} ((j, w) ∷ m) h = elim (Bool-cases (j == k)) [
    | inl same ↦
        let here : Option.some w ≡ some v = ground arith in
        inl (entry_path ((==_iff j k).0 same) (some-injective _ _ here))
    | inr other ↦ inr (mem_of_get k m (ground arith))
  ]
    where
      entry_path : {a b : K} {x y : V} → a ≡ b → x ≡ y → ◌≡◌ {A = K × V} (a, x) (b, y)
      entry_path p q = λ i. (p i, q i)

  -- An entry is what `get` finds at its key.
  pub get_of_mem : (k : K) (v : V) (m : BTreeMap K V) → Ascends m → (k, v) ∈ m → get k m ≡ some v
  unfolding get
  get_of_mem k v [] h e = absurd e
  get_of_mem k v ((j, w) ∷ m) h (inl e) = rw (ap (λ x. x.0) e, ==_refl k) (ap (λ x. some x.1) e)
  get_of_mem k v ((j, w) ∷ m) (above, rest) (inr e) =
      rw (ne_of_lt j k (All-mem (λ x. o.cmp j x.0 ≡ lt) (k, v) m above e)) (get_of_mem k v m rest e)

  -- The values of a map whose keys are read off the values: no two have one key.
  pub Ascends-Distinct :
      (key : V → K) (m : BTreeMap K V)
      → Ascends m
      → All (λ e. key e.1 ≡ e.0) m
      → Distinct key (map (λ e. e.1) m)
  Ascends-Distinct key [] h keys = tt
  Ascends-Distinct key ((k, v) ∷ m) (above, rest) (at_k, keys) =
      (apart m above keys, Ascends-Distinct key m rest keys)
    where
      apart :
          (l : BTreeMap K V)
          → All (λ e. o.cmp k e.0 ≡ lt) l
          → All (λ e. key e.1 ≡ e.0) l
          → All (λ x. key x ≢ key v) (map (λ e. e.1) l)
      apart [] a b = tt
      apart ((j, w) ∷ l) (a, others) (b, bs) =
          ((λ same. ground (arith, o.cmp_refl k, sym b ∙ same ∙ at_k)), apart l others bs)

module _ {K V W : Type 0} ⦃o : Ord K⦄ (f : V → W) where
  abbrev pub map_values : BTreeMap K V → BTreeMap K W
  map_values = map (λ e. (e.0, f e.1))

  pub get-map_values : (k : K) (m : BTreeMap K V) → get k (map_values m) ≡ Option.map f (get k m)
  unfolding get
  get-map_values k [] = refl
  get-map_values k ((j, v) ∷ m) = ground (arith, get-map_values k m)

  pub insert-map_values :
      (k : K) (v : V) (m : BTreeMap K V) → insert k (f v) (map_values m) ≡ map_values (insert k v m)
  unfolding insert
  insert-map_values k v [] = refl
  insert-map_values k v ((j, w) ∷ m) = ground (arith, insert-map_values k v m)

  pub map-map_values : (m : BTreeMap K V) → map (λ e. e.1) (map_values m) ≡ map f (map (λ e. e.1) m)
  map-map_values [] = refl
  map-map_values ((k, v) ∷ m) = ap (λ l. f v ∷ l) (map-map_values m)
