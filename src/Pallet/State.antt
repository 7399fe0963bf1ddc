-- ===== src/Pallet/State.antt =====
-- pallets/aggregator/src/lib.rs: the storage items, events, errors and payload of the pallet.
use substrate_aggregator.Prelude.{ℕ, Option, Bool, List, [], ◌∷◌, ◌++◌}
use substrate_aggregator.Storage.{Storage}
use substrate_aggregator.Types.{Pair, ProviderPair, Provider, PricePath, Operation}

-- The bound `Balance` on amounts: what the pallet and its calculator use of it. `mul` is the
-- type's own `*`, with whatever it does on overflow.
pub record Amount (A : Type 0) : Type 0 where
  pub default : A
  pub mul : A → A → A
  pub try_into_u128 : A → Option ℕ
  pub try_from_u128 : ℕ → Option A

-- The origins of a call, which the runtime defines. Each test gives what the source's
-- `ensure_none`, `ensure_root` and `ensure_signed` let through.
pub record Origins (Account : Type 0) : Type 1 where
  pub Origin : Type 0
  pub ensure_none : Origin → Bool
  pub ensure_root : Origin → Bool
  pub ensure_signed : Origin → Option Account

-- A requested best path for a source and a target, or the request to remove it.
abbrev pub Change : Type 0 → Type 0 → Type 0
Change C A = C × C × Option (PricePath C A)

pub record BestPathChangesPayload (Public C A : Type 0) : Type 0 where
  pub changes : List (Change C A)
  pub nonce : ℕ
  pub block_number : ℕ
  pub public : Public

abbrev pub PriceEntry : Type 0 → Type 0 → Type 0
PriceEntry C A = C × C × A × Operation

abbrev pub PairEntry : Type 0 → Type 0
PairEntry C = C × C × Provider × Operation

pub data Event (Account C A : Type 0) : Type 0 where
  best_prices_submitted : List (PriceEntry C A) → Event Account C A
  monitored_pairs_submitted : List (PairEntry C) → Event Account C A
  trade_performed : Account → C → C → A → A → A → Event Account C A
  whitelisted_offchain_authority_added : Account → Event Account C A

pub data Error : Type 0 where
  price_pair_not_found_error : Error
  unknown_trade_provider_error : Error
  stale_unsigned_tx_error : Error

-- The failures of a dispatch: the runtime's refusal of an origin, or an error of the pallet.
pub data DispatchError : Type 0 where
  bad_origin : DispatchError
  pallet_error : Error → DispatchError

-- A call that fails leaves the storage as it was: two are `#[transactional]`, and the other two
-- fail before their first write. So a failure carries no state.
pub data Result (S : Type 0) : Type 0 where
  ok : S → Result S
  err : DispatchError → Result S

-- The on-chain state. `events` are the events deposited so far, in order.
pub record State (Account C A : Type 0) : Type 0 where
  pub best_paths : Storage (Pair C) (PricePath C A)
  pub monitored_pairs : Storage (ProviderPair C) (Unit {0})
  pub whitelisted_offchain_authorities : Storage Account (Unit {0})
  pub unsigned_tx_nonce : ℕ
  pub events : List (Event Account C A)

module _ {Account C A : Type 0} where
  abbrev pub deposit_event : Event Account C A → State Account C A → State Account C A
  deposit_event e s = record s { events = s.events ++ e ∷ [] }
