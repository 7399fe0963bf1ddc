-- ===== src/Tests/Prices.antt =====
-- Prices and their tolerance, and a request to a host that answers.
use substrate_aggregator.Prelude.{
  ℕ, ◌+◌, ◌*◌, ◌≤◌, ◌<◌, ◌≡◌, refl, ◌↔◌, inr, true, none, some, [], ◌∷◌, arith, returns, pos, codes,
  nat_eq, if◌then◌else◌,
}
use substrate_aggregator.Types.{crypto_compare}
use substrate_aggregator.Utils.{LiteJson, breaches_tolerance, scaled_price}
use substrate_aggregator.Utils.Tolerance.{distance, breaches_tolerance_iff}
use substrate_aggregator.Utils.Price.{Fits, units, scaled_price-one_digit}
use substrate_aggregator.TradeProvider.{Host, ok, provider_price}
use substrate_aggregator.TradeProvider.Response.{Answered, Gives, provider_price_iff}

-- The prices of the repository's own tests.
breaches :
    (breaches_tolerance 1_002 1_000 1_000 ≡ returns true)
    × (breaches_tolerance 1_002 1_008 5_000 ≡ returns true)
unfolding breaches_tolerance
breaches = (refl, refl)

breaches_tolerance_iff_example :
    (breaches_tolerance 1_002 1_000 1_000 ≡ returns true)
    ↔ ((1_000 + 1) * 1_002 ≤ 1_000_000 * distance 1_002 1_000)
breaches_tolerance_iff_example =
    breaches_tolerance_iff 1_002 1_000 1_000 (omega arith) (omega arith)

twelve : units 12 789 3 12 ≡ 12_789_000_000_000
twelve = refl

-- 1.5
half-Fits : Fits 1 5 1 12
half-Fits = ground arith

scaled_price-one_digit_example :
    (scaled_price (pos 1) 5 1 12 ≡ returns (units 1 5 2 12)) × (units 1 5 2 12 < units 1 5 1 12)
scaled_price-one_digit_example = scaled_price-one_digit 1 5 12 half-Fits (omega arith)

half : (units 1 5 2 12 ≡ 1_050_000_000_000) × (units 1 5 1 12 ≡ 1_500_000_000_000)
half = (refl, refl)

-- A parser whose objects have one number, 12.789, at the key "USDT".
abbrev json : LiteJson
json = record {
  JsonValue = ℕ;
  NumberValue = ℕ;
  parse_json = λ text. some 0;
  as_object = λ v. if nat_eq v 0 then some ((codes "USDT", 1) ∷ []) else none;
  as_number = λ v. if nat_eq v 1 then some 0 else none;
  integer = λ v. pos 12;
  fraction = λ v. 789;
  fraction_length = λ v. 3;
}

abbrev host : Host
host = record {
  HttpError = ℕ;
  deadline_reached = 0;
  io_error = 1;
  unknown = 2;
  PendingRequest = Unit {0};
  Response = Unit {0};
  timestamp = 100;
  send = λ url deadline. some tt;
  try_wait = λ pending deadline. some (inr tt);
  code = λ response. 200;
  body = λ response. codes "{}";
}

provider_price_iff_example :
    (provider_price host json crypto_compare (codes "BTC") (codes "USDT")
      ≡ returns (ok 12_789_000_000_000))
    ↔ ((response : Unit {0}) × Answered host json (codes "BTC") (codes "USDT") response
        × Gives host json (codes "BTC") (codes "USDT") response 12_789_000_000_000)
provider_price_iff_example =
    provider_price_iff host json (codes "BTC") (codes "USDT") crypto_compare 12_789_000_000_000
