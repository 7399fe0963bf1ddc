-- ===== src/Utils/Tolerance.antt =====
-- pallets/aggregator/src/utils.rs: what `breaches_tolerance` decides.
use native.Mathlib.Nat.{le-div_iff_mul-le}
use substrate_aggregator.Prelude.{
  ℕ, ◌+◌, ◌-◌, ◌*◌, ◌/◌, ◌^◌, ◌≤◌, ◌<◌, ◌≡◌, ◌↔◌, true, ltb, Bool, arith, returns, refl, ap,
  saturating_mul, nat_eq, Bool-cases, inl, inr, false,
}
use substrate_aggregator.Utils.{breaches_tolerance}

-- The distance of two prices.
abbrev pub distance : ℕ → ℕ → ℕ
distance a b = (a - b) + (b - a)

saturating_distance :
    (a b c : ℕ)
    → a ≡ c
    → 1_000_000 * c < 2 ^ 128
    → saturating_mul 1_000_000 a / b ≡ 1_000_000 * c / b
saturating_distance a b c e fits = rw e (ap (λ x. x / b) (omega arith))

breaches_tolerance-delta :
    (old new tolerance : ℕ)
    → 0 < old
    → 1_000_000 * distance old new < 2 ^ 128
    → breaches_tolerance old new tolerance
      ≡ returns (ltb tolerance (1_000_000 * distance old new / old))
unfolding breaches_tolerance
breaches_tolerance-delta old new tolerance positive fits =
    let nonzero : nat_eq old 0 ≡ false = ground arith in
    rw nonzero (elim (Bool-cases (ltb new old)) [
      | inl less ↦
          rw (less, saturating_distance (old - new) old (distance old new) (ground arith) fits) refl
      | inr not_less ↦
          rw (not_less, saturating_distance (new - old) old (distance old new) (ground arith) fits)
            refl
    ])

breach-le : (t d : ℕ) → returns (ltb t d) ≡ returns true → t + 1 ≤ d
breach-le t d h = ground arith

le-breach : (t d : ℕ) → t + 1 ≤ d → returns (ltb t d) ≡ returns true
le-breach t d h = ground arith

-- For an old price that is not zero, and a million times the distance in `u128`, a change breaches the
-- tolerance exactly if its distance is at least `tolerance + 1` millionths of the old price.
pub breaches_tolerance_iff :
    (old new tolerance : ℕ)
    → 0 < old
    → 1_000_000 * distance old new < 2 ^ 128
    → (breaches_tolerance old new tolerance ≡ returns true)
      ↔ ((tolerance + 1) * old ≤ 1_000_000 * distance old new)
breaches_tolerance_iff old new tolerance positive fits =
    let quotient =
      le-div_iff_mul-le {k = old} {x = tolerance + 1} {y = 1_000_000 * distance old new} positive in
    let delta = 1_000_000 * distance old new / old in
    rw (breaches_tolerance-delta old new tolerance positive fits)
      (λ h. quotient.0 (breach-le tolerance delta h), λ h. le-breach tolerance delta (quotient.1 h))

-- An old price that is not zero can be compared.
pub breaches_tolerance-returns :
    (old new tolerance : ℕ)
    → 0 < old
    → (b : Bool) × (breaches_tolerance old new tolerance ≡ returns b)
unfolding breaches_tolerance
breaches_tolerance-returns old new tolerance positive =
    let nonzero : nat_eq old 0 ≡ false = ground arith in rw nonzero (_, refl)
