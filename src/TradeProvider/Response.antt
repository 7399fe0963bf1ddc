-- ===== src/TradeProvider/Response.antt =====
-- pallets/aggregator/src/trade_provider/crypto_compare.rs: when `get_price` gives a price.
use substrate_aggregator.Prelude.{
  ℕ, ◌+◌, ◌≡◌, ◌↔◌, inl, inr, some, Option-cases, List, returns, arith,
}
use substrate_aggregator.Types.{Provider, crypto_compare}
use substrate_aggregator.Utils.{LiteJson, parse_price}
use substrate_aggregator.TradeProvider.{
  Host, ok, url_of, read_response, get_price, decimals, provider_price,
}
use substrate_aggregator.TradeProvider.Utf8.{from_utf8}

module _ (host : Host) (json : LiteJson) (source target : List ℕ) where
  -- A response that gives a price: it has the status 200, its body is UTF-8, and the price is read from
  -- it.
  pub record Gives (response : host.Response) (price : ℕ) : Type 0 where
    pub status : host.code response ≡ 200
    pub body_str : List ℕ
    pub utf8 : from_utf8 (host.body response) ≡ some body_str
    pub read : parse_price json body_str target decimals ≡ returns (some price)

  -- A request that the host answers in time.
  pub record Answered (response : host.Response) : Type 0 where
    pub url_codes : List ℕ
    pub url_utf8 : from_utf8 (url_of source target) ≡ some url_codes
    pub pending : host.PendingRequest
    pub sent : host.send (url_of source target) (host.timestamp + 2_000) ≡ some pending
    pub waited : host.try_wait pending (host.timestamp + 2_000) ≡ some (inr response)

  read_response-Gives :
      (response : host.Response) {price : ℕ}
      → read_response host json response target decimals ≡ returns (ok price)
      → Gives response price
  unfolding read_response
  read_response-Gives response h = elim (Option-cases (from_utf8 (host.body response))) [
    | inl bad ↦ absurd (ground arith)
    | inr (text, e) ↦ record {
      status = ground arith;
      body_str = text;
      utf8 = e;
      read = ground arith;
    }
  ]

  Gives-read_response :
      (response : host.Response) {price : ℕ}
      → Gives response price
      → read_response host json response target decimals ≡ returns (ok price)
  unfolding read_response
  Gives-read_response response g = ground arith

  get_price-answer :
      (response : host.Response)
      → Answered response
      → get_price host json source target decimals
        ≡ read_response host json response target decimals
  unfolding get_price
  get_price-answer response a = ground arith

  get_price-Answered :
      {price : ℕ}
      → get_price host json source target decimals ≡ returns (ok price)
      → (response : host.Response) × Answered response × Gives response price
  unfolding get_price
  get_price-Answered {price} h =
      let deadline = host.timestamp + 2_000 in
      elim (Option-cases (from_utf8 (url_of source target))) [
        | inl bad ↦ absurd (ground arith)
        | inr (text, e) ↦ elim (Option-cases (host.send (url_of source target) deadline)) [
          | inl bad ↦ absurd (ground arith)
          | inr (pending, sent) ↦ elim (Option-cases (host.try_wait pending deadline)) [
            | inl bad ↦ absurd (ground arith)
            | inr (inl x, waited) ↦ absurd (ground arith)
            | inr (inr response, waited) ↦ (
              response,
              record {
                url_codes = text;
                url_utf8 = e;
                pending = pending;
                sent = sent;
                waited = waited;
              },
              read_response-Gives response (ground arith),
            )
          ]
        ]
      ]

  -- A price comes back exactly if the address is UTF-8, the request is sent, it is answered within two
  -- seconds with the status 200 and a body in UTF-8, and that is the price which is read from the body.
  pub provider_price_iff :
      (provider : Provider) (price : ℕ)
      → (provider_price host json provider source target ≡ returns (ok price))
        ↔ ((response : host.Response) × Answered response × Gives response price)
  unfolding provider_price
  provider_price_iff crypto_compare price = (
    get_price-Answered,
    λ (response, answered, gives).
        rw (get_price-answer response answered) (Gives-read_response response gives),
  )
