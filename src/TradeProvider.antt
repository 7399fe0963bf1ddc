-- ===== src/TradeProvider.antt =====
-- pallets/aggregator/src/trade_provider: prices by provider, in `TradeProviderImpl` (mod.rs), and
-- those of CryptoCompare (crypto_compare.rs).
pub mod Utf8
pub mod Response
use substrate_aggregator.Prelude.{
  ℕ, ◌+◌, Option, none, some, List, ◌⊎◌, inl, inr, if◌then◌else◌, Outcome, returns, panics, nat_eq,
  codes,
}
use substrate_aggregator.Types.{Provider, crypto_compare}
use substrate_aggregator.Utils.{LiteJson, parse_price, concat4}
use substrate_aggregator.TradeProvider.Utf8.{from_utf8}

-- What the host of an off-chain worker offers for requests: its time in milliseconds, the start of a
-- request, which may fail, and the wait for its response, which may pass the deadline or fail.
pub record Host : Type 1 where
  pub HttpError : Type 0
  pub deadline_reached : HttpError
  pub io_error : HttpError
  pub unknown : HttpError
  pub PendingRequest : Type 0
  pub Response : Type 0
  pub timestamp : ℕ
  pub send : (url : List ℕ) (deadline : ℕ) → Option PendingRequest
  pub try_wait : PendingRequest → (deadline : ℕ) → Option (HttpError ⊎ Response)
  pub code : Response → ℕ
  pub body : Response → List ℕ

pub data TradeProviderErr (host : Host) : Type 0 where
  transport_err : host.HttpError → TradeProviderErr host

pub data PriceResult (host : Host) : Type 0 where
  ok : ℕ → PriceResult host
  err : TradeProviderErr host → PriceResult host

-- "https://min-api.cryptocompare.com/data/price?fsym="
abbrev pub price_address : List ℕ
price_address = codes "https://min-api.cryptocompare.com/data/price?fsym="

-- "&tsyms="
abbrev pub target_argument : List ℕ
target_argument = codes "&tsyms="

abbrev pub url_of : (source target : List ℕ) → List ℕ
url_of source target = concat4 price_address source target_argument target

-- `SCALE`
abbrev pub decimals : ℕ
decimals = 12

module _ (host : Host) (json : LiteJson) where
  abbrev fails : host.HttpError → Outcome (PriceResult host)
  fails e = returns (err (transport_err e))

  -- The end of `get_price`, from the response.
  unfoldable pub read_response :
      host.Response → (target : List ℕ) (scale : ℕ) → Outcome (PriceResult host)
  read_response response target scale =
      if nat_eq (host.code response) 200
      then (elim (from_utf8 (host.body response)) [
        | none ↦ fails host.unknown
        | some body_str ↦ elim (parse_price json body_str target scale) [
          | panics ↦ panics
          | returns none ↦ fails host.unknown
          | returns (some price) ↦ returns (ok price)
        ]
      ])
      else fails host.unknown

  -- `crypto_compare::get_price`
  unfoldable pub get_price : (source target : List ℕ) (scale : ℕ) → Outcome (PriceResult host)
  get_price source target scale =
      let deadline = host.timestamp + 2_000 in
      let url = url_of source target in
      elim (from_utf8 url) [
        | none ↦ fails host.unknown
        | some _ ↦ elim (host.send url deadline) [
          | none ↦ fails host.io_error
          | some pending ↦ elim (host.try_wait pending deadline) [
            | none ↦ fails host.deadline_reached
            | some (inl e) ↦ fails e
            | some (inr response) ↦ read_response response target scale
          ]
        ]
      ]

  -- `TradeProviderImpl::get_price`
  unfoldable pub provider_price : Provider → (source target : List ℕ) → Outcome (PriceResult host)
  provider_price crypto_compare source target = get_price source target decimals
