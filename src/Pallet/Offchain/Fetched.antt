-- ===== src/Pallet/Offchain/Fetched.antt =====
-- pallets/aggregator/src/lib.rs: which prices the off-chain worker fetches.
use mathlib.Core.Path.{ap₂}
use substrate_aggregator.Prelude.{
  ◌≡◌, refl, sym, ap, ◌∙◌, ◌↔◌, ◌⊎◌, inl, inr, subst, List, [], ◌∷◌, ◌∈◌, returns, arith, Outcome,
}
use substrate_aggregator.Types.{ProviderPair}
use substrate_aggregator.Pallet.Offchain.{done, TradeProvider, fetch_prices}

module _ {C A : Type 0} (market : TradeProvider C A) where
  -- What the provider answers for a pair.
  abbrev pub answer : ProviderPair C → Outcome (market.TradeProviderErr ⊎ A)
  answer pp = market.get_price pp.provider pp.pair.source pp.pair.target

  -- The prices are those that were given for the monitored pairs.
  abbrev pub IsFetched : List (ProviderPair C) → List (ProviderPair C × A) → Type 0
  IsFetched monitored fetched =
      (pp : ProviderPair C) (cost : A)
      → ((pp, cost) ∈ fetched) ↔ ((pp ∈ monitored) × (answer pp ≡ returns (inr cost)))

  IsFetched-fails :
      (pp : ProviderPair C) (monitored : List (ProviderPair C))
      (fetched : List (ProviderPair C × A)) (e : market.TradeProviderErr)
      → answer pp ≡ returns (inl e)
      → IsFetched monitored fetched
      → IsFetched (pp ∷ monitored) fetched
  IsFetched-fails pp monitored fetched e fails h qq cost = (
    λ m. let (n, given) = (h qq cost).0 m in (inr n, given),
    λ (n, given). elim n [
      | inl here ↦ absurd (failed≢given (sym fails ∙ ap answer here ∙ given))
      | inr there ↦ (h qq cost).1 (there, given)
    ],
  )
    where
      failed≢given :
          {E X : Type 0} {e : E} {x : X}
          → ◌≡◌ {A = Outcome (E ⊎ X)} (returns (inl e)) (returns (inr x))
          → ⊥
      failed≢given same = cc

  IsFetched-gives :
      (pp : ProviderPair C) (cost : A) (monitored : List (ProviderPair C))
      (fetched : List (ProviderPair C × A))
      → answer pp ≡ returns (inr cost)
      → IsFetched monitored fetched
      → IsFetched (pp ∷ monitored) ((pp, cost) ∷ fetched)
  IsFetched-gives pp cost monitored fetched gives h qq other = (
    λ m. elim m [
      | inl here ↦ (
        inl (ap (λ (x : ProviderPair C × A). x.0) here),
        subst (λ (x : ProviderPair C × A). answer x.0 ≡ returns (inr x.1)) here gives,
      )
      | inr there ↦ let (n, given) = (h qq other).0 there in (inr n, given)
    ],
    λ (n, given). elim n [
      | inl here ↦ inl (ap₂ (λ p x. (p, x)) here (given_once (sym gives ∙ ap answer here ∙ given)))
      | inr there ↦ inr ((h qq other).1 (there, given))
    ],
  )
    where
      given_once :
          {E X : Type 0} {x y : X}
          → ◌≡◌ {A = Outcome (E ⊎ X)} (returns (inr x)) (returns (inr y))
          → x ≡ y
      given_once same = ground arith

  -- If no request for a monitored pair panics, then fetching ends, and the prices are exactly those of the
  -- monitored pairs for which the provider gave one; the failures of the other requests stop nothing.
  pub fetch_prices-IsFetched :
      (monitored : List (ProviderPair C))
      → ((pp : ProviderPair C)
          → pp ∈ monitored
          → (r : market.TradeProviderErr ⊎ A) × (answer pp ≡ returns r))
      → (fetched : List (ProviderPair C × A)) × (fetch_prices market monitored ≡ done fetched)
        × IsFetched monitored fetched
  unfolding fetch_prices
  fetch_prices-IsFetched [] answers = ([], refl, λ pp cost. (λ m. absurd m, λ (m, _). absurd m))
  fetch_prices-IsFetched (pp ∷ monitored) answers =
      let (fetched, e, h) = fetch_prices-IsFetched monitored λ qq m. answers qq (inr m) in
      let (r, answered) = answers pp (inl refl) in by_answer fetched e h r answered
    where
      by_answer :
          (fetched : List (ProviderPair C × A))
          → fetch_prices market monitored ≡ done fetched
          → IsFetched monitored fetched
          → (r : market.TradeProviderErr ⊎ A) → answer pp ≡ returns r
          → (all : List (ProviderPair C × A)) × (fetch_prices market (pp ∷ monitored) ≡ done all)
            × IsFetched (pp ∷ monitored) all
      by_answer fetched e h (inl x) answered =
          (fetched, rw (answered, e) refl, IsFetched-fails pp monitored fetched x answered h)
      by_answer fetched e h (inr cost) answered = (
        (pp, cost) ∷ fetched,
        rw (answered, e) refl,
        IsFetched-gives pp cost monitored fetched answered h,
      )
