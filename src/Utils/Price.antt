-- ===== src/Utils/Price.antt =====
-- pallets/aggregator/src/utils.rs: which price `parse_price` makes of a number.
use native.Mathlib.Nat.{pow-suc, mod-eq_of_lt, pow-le-pow_right, div-le_self}
use substrate_aggregator.Prelude.{
  ℕ, zero, suc, ◌+◌, ◌-◌, ◌*◌, ◌/◌, ◌%◌, ◌^◌, ◌≤◌, ◌<◌, ◌≡◌, refl, ap, ◌∙◌, arith, returns, pos,
  u128_mod, nat_eq, false,
}
use substrate_aggregator.Utils.{pow10, scaled_price}

-- What the parts of a number fit in: `scale` is at most 38, the largest power of ten in `u128`, the
-- digits behind the point are at most forty, and no product or sum overflows.
pub record Fits (integer fraction fraction_length scale : ℕ) : Type 0 where
  pub scale_low : 2 ≤ scale
  pub scale_high : scale ≤ 38
  pub digits : fraction_length ≤ 40
  pub product : fraction * 10 ^ (scale - 2) < 2 ^ 128
  pub sum : integer * 10 ^ scale + fraction * 10 ^ (scale - 2) < 2 ^ 128

pow10-eq : (e : ℕ) → 10 ^ e < 2 ^ 128 → pow10 e ≡ 10 ^ e
unfolding pow10
pow10-eq e h = mod-eq_of_lt h

-- The number of units of 10^-scale in a decimal number, rounded down.
abbrev pub units : (integer fraction fraction_length scale : ℕ) → ℕ
units integer fraction fraction_length scale =
    integer * 10 ^ scale + fraction * 10 ^ scale / 10 ^ fraction_length

pow-pos : (e : ℕ) → 0 < 10 ^ e
pow-pos zero = omega arith
pow-pos (suc e) = rw (pow-suc 10 e) (grind (arith, pow-pos e))

pow-hundred : (e : ℕ) → 2 ≤ e → 10 ^ e ≡ 10 ^ (e - 2) * 100
pow-hundred zero h = absurd (omega arith)
pow-hundred (suc zero) h = absurd (omega arith)
pow-hundred (suc (suc e)) h =
    let same : suc (suc e) - 2 ≡ e = omega arith in
    rw (same, pow-suc 10 (suc e), pow-suc 10 e) (omega arith)

pow-fits : (e : ℕ) → e ≤ 38 → 10 ^ e < 2 ^ 128
pow-fits e h = let bound : 10 ^ e ≤ 10 ^ 38 = pow-le-pow_right (omega arith) h in omega arith

-- The price as the code adds it up.
scaled_price-eq :
    (n f l s : ℕ)
    → Fits n f l s
    → scaled_price (pos n) f l s ≡ returns (n * 10 ^ s + f * 10 ^ (s - 2) / 10 ^ (l - 2))
unfolding scaled_price
scaled_price-eq n f l s h =
    let exponent : (s + 2 ^ 32 - 2) % 2 ^ 32 ≡ s - 2 = omega (arith, h.scale_low, h.scale_high) in
    let divisor = pow10-eq (l - 2) (pow-fits (l - 2) (omega (arith, h.digits))) in
    let whole = pow10-eq s (pow-fits s h.scale_high) in
    let part = pow10-eq (s - 2) (pow-fits (s - 2) (omega (arith, h.scale_high))) in
    let nonzero : nat_eq (10 ^ (l - 2)) 0 ≡ false = ne_zero (10 ^ (l - 2)) (pow-pos (l - 2)) in
    let quotient = div-le_self (f * 10 ^ (s - 2)) (10 ^ (l - 2)) in
    rw (divisor, nonzero, exponent, whole, part)
      (ap returns (
        wrapped (n * 10 ^ s) (f * 10 ^ (s - 2)) (f * 10 ^ (s - 2) / 10 ^ (l - 2)) (10 ^ (l - 2))
          refl quotient h.sum))
  where
    ne_zero : (a : ℕ) → 0 < a → nat_eq a 0 ≡ false
    ne_zero a positive = ground arith

    wrapped :
        (a b q d : ℕ)
        → b / d ≡ q
        → q ≤ b
        → a + b < 2 ^ 128
        → (a % u128_mod + b % u128_mod / d) % u128_mod ≡ a + q
    wrapped a b q d e le lt =
        let whole : a % u128_mod ≡ a = mod-eq_of_lt (omega arith) in
        let part : b % u128_mod ≡ b = mod-eq_of_lt (omega arith) in
        rw (whole, part, e) (mod-eq_of_lt (omega arith))

-- A number with one digit behind the point that is not 0 gets the price of one with that digit in the
-- second place: a tenth of what the digit stands for, so a price that is too low.
pub scaled_price-one_digit :
    (n f s : ℕ)
    → Fits n f 1 s
    → 0 < f
    → (scaled_price (pos n) f 1 s ≡ returns (units n f 2 s)) × (units n f 2 s < units n f 1 s)
scaled_price-one_digit n f s h positive = (
  scaled_price-eq n f 1 s h
      ∙ ap (λ x. returns (n * 10 ^ s + x)) (rw (pow-hundred s h.scale_low) (grind arith)),
  rw (pow-hundred s h.scale_low) (tenth n f (10 ^ (s - 2)) positive (pow-pos (s - 2))),
)
  where
    tenth :
        (a b q : ℕ)
        → 0 < b
        → 0 < q
        → a * (q * 100) + b * (q * 100) / 100 < a * (q * 100) + b * (q * 100) / 10
    tenth a b q hb hq = grind arith
