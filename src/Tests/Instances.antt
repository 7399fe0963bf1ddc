-- ===== src/Tests/Instances.antt =====
-- Small instances of what the pallet is generic in: numbers for accounts, currencies and amounts.
use substrate_aggregator.Prelude.{
  ℕ, ◌*◌, ◌^◌, Option, none, some, Bool, true, false, [], ◌∷◌, ltb, if◌then◌else◌,
}
use substrate_aggregator.Types.{Pair, ProviderPair, PricePath, crypto_compare}
use substrate_aggregator.Storage.{Storage}
use substrate_aggregator.Pallet.State.{Amount, Origins, BestPathChangesPayload, State}
use substrate_aggregator.Pallet.Validate.{Crypto}

-- Amounts are `u128`.
instance abbrev pub amount : Amount ℕ
amount = record {
  default = 0;
  mul = λ a b. a * b;
  try_into_u128 = λ a. if ltb a (2 ^ 128) then some a else none;
  try_from_u128 = λ n. some n;
}

pub data Origin : Type 0 where
  no_origin : Origin
  root : Origin
  signed : ℕ → Origin

abbrev is_none : Origin → Bool
is_none no_origin = true
is_none root = false
is_none (signed who) = false

abbrev is_root : Origin → Bool
is_root no_origin = false
is_root root = true
is_root (signed who) = false

abbrev signer_of : Origin → Option ℕ
signer_of no_origin = none
signer_of root = none
signer_of (signed who) = some who

abbrev pub origins : Origins ℕ
origins = record {
  Origin = Origin;
  ensure_none = is_none;
  ensure_root = is_root;
  ensure_signed = signer_of;
}

-- A signature is right if it is the nonce.
abbrev pub crypto : Crypto ℕ ℕ ℕ ℕ ℕ
crypto = record {
  verify = λ payload signature. elim (ltb payload.nonce signature) [ true ↦ false | false ↦ true ];
  into_account = λ public. public;
}

abbrev pub pair_at : ℕ → ℕ → Pair ℕ
pair_at source target = record { source = source; target = target }

abbrev pub provided : ℕ → ℕ → ProviderPair ℕ
provided source target = record { pair = pair_at source target; provider = crypto_compare }

abbrev pub path_of : ℕ → PricePath ℕ ℕ
path_of cost = record { total_cost = cost; steps = [] }

-- The account 7 is on the whitelist, and the nonce is 4.
abbrev whitelist : Storage ℕ (Unit {0})
whitelist = λ account. if ltb account 8 then (if ltb 6 account then some tt else none) else none

abbrev pub start : State ℕ ℕ ℕ
start = record {
  best_paths = λ k. none;
  monitored_pairs = λ k. none;
  whitelisted_offchain_authorities = whitelist;
  unsigned_tx_nonce = 4;
  events = [];
}

abbrev pub payload : BestPathChangesPayload ℕ ℕ ℕ
payload = record {
  changes = (1, 2, some (path_of 50)) ∷ (3, 4, none) ∷ [];
  nonce = 4;
  block_number = 10;
  public = 7;
}
