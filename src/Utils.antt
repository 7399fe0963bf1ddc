-- ===== src/Utils.antt =====
-- pallets/aggregator/src/utils.rs: the price of a response, concatenation, and the tolerance of
-- price changes. Arithmetic that overflows wraps round, as in a release build.
pub mod Price
pub mod Tolerance
use substrate_aggregator.Prelude.{
  ℕ, ◌+◌, ◌-◌, ◌*◌, ◌/◌, ◌%◌, ◌^◌, Bool, Option, none, some, List, [], ◌∷◌, ◌++◌, ltb,
  if◌then◌else◌, Outcome, returns, panics, ℤ, as_u128, u128_mod, saturating_mul, nat_eq, same_codes,
}

-- The crate `lite_json`: a parser of texts, which are lists of code points, and what the code reads of
-- its values. Of a number that is the integer part, and the digits behind the point as a number with
-- their count.
pub record LiteJson : Type 1 where
  pub JsonValue : Type 0
  pub NumberValue : Type 0
  pub parse_json : List ℕ → Option JsonValue
  pub as_object : JsonValue → Option (List (List ℕ × JsonValue))
  pub as_number : JsonValue → Option NumberValue
  pub integer : NumberValue → ℤ
  pub fraction : NumberValue → ℕ
  pub fraction_length : NumberValue → ℕ

-- `10_u128.pow(e)`
unfoldable pub pow10 : ℕ → ℕ
pow10 e = 10 ^ e % u128_mod

-- The price in units of 10^-scale, from the parts of a number. `scale-2` is a `u32`.
unfoldable pub scaled_price : (integer : ℤ) (fraction fraction_length scale : ℕ) → Outcome ℕ
scaled_price integer fraction fraction_length scale =
    let divisor = pow10 (fraction_length - 2) in
    if nat_eq divisor 0
    then panics
    else returns (
        (as_u128 integer * pow10 scale % u128_mod
          + fraction * pow10 ((scale + 2 ^ 32 - 2) % 2 ^ 32) % u128_mod / divisor)
        % u128_mod)

unfoldable pub find_value : {V : Type 0} → List ℕ → List (List ℕ × V) → Option V
find_value target [] = none
find_value target ((k, v) ∷ obj) = if same_codes k target then some v else find_value target obj

module _ (json : LiteJson) where
  -- The number that a response gives for a currency.
  unfoldable pub find_price : (price_str target_currency : List ℕ) → Option json.NumberValue
  find_price price_str target_currency = elim (json.parse_json price_str) [
    | none ↦ none
    | some val ↦ elim (json.as_object val) [
      | none ↦ none
      | some obj ↦ elim (find_value target_currency obj) [ none ↦ none | some v ↦ json.as_number v ]
    ]
  ]

  unfoldable pub parse_price : (price_str target_currency : List ℕ) (scale : ℕ) → Outcome (Option ℕ)
  parse_price price_str target_currency scale = elim (find_price price_str target_currency) [
    | none ↦ returns none
    | some price ↦
        elim (scaled_price (json.integer price) (json.fraction price) (json.fraction_length price)
          scale) [ panics ↦ panics | returns p ↦ returns (some p) ]
  ]

unfoldable pub concat4 : (bin1 bin2 bin3 bin4 : List ℕ) → List ℕ
concat4 bin1 bin2 bin3 bin4 = ((bin1 ++ bin2) ++ bin3) ++ bin4

-- Dividing by an old price of zero panics.
unfoldable pub breaches_tolerance : (old new tolerance : ℕ) → Outcome Bool
breaches_tolerance old new tolerance =
    if nat_eq old 0
    then panics
    else (let delta =
          if ltb new old
          then saturating_mul 1_000_000 (old - new) / old
          else saturating_mul 1_000_000 (new - old) / old in
        returns (ltb tolerance delta))
