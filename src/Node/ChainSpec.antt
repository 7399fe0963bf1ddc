-- ===== src/Node/ChainSpec.antt =====
-- node/src/chain_spec.rs: the genesis of the chain, and `load_spec` of node/src/command.rs.
pub mod Funds
use substrate_aggregator.Prelude.{
  ℕ, ◌^◌, Option, none, some, List, [], ◌∷◌, ◌++◌, map, if◌then◌else◌, Outcome, returns, panics,
  then_run, codes, same_codes,
}

-- The keys of the node's libraries, made from texts such as "//Alice". `into_account` is that of
-- `AccountPublic`.
pub record Keys : Type 1 where
  pub AuraId : Type 0
  pub GrandpaId : Type 0
  pub Public : Type 0
  pub AccountId : Type 0
  pub aura_from_string : List ℕ → Option AuraId
  pub grandpa_from_string : List ℕ → Option GrandpaId
  pub public_from_string : List ℕ → Option Public
  pub into_account : Public → AccountId

pub data ChainType : Type 0 where
  development : ChainType
  local_type : ChainType

pub record GenesisConfig (keys : Keys) : Type 0 where
  pub code : List ℕ
  pub balances : List (keys.AccountId × ℕ)
  pub aura_authorities : List keys.AuraId
  pub grandpa_authorities : List (keys.GrandpaId × ℕ)
  pub sudo_key : Option keys.AccountId

-- A specification. Its genesis is computed when it is built, and may panic.
pub record ChainSpec (keys : Keys) : Type 0 where
  pub name : List ℕ
  pub id : List ℕ
  pub chain_type : ChainType
  pub genesis : Outcome (GenesisConfig keys)

-- A specification, or the text of an error.
pub data SpecResult (keys : Keys) : Type 0 where
  ok : ChainSpec keys → SpecResult keys
  err : List ℕ → SpecResult keys

-- `expect` panics if the text is no key.
abbrev pub get_from_seed :
    {K : Type 0} → (from_string : List ℕ → Option K) (seed : List ℕ) → Outcome K
get_from_seed from_string seed = elim (from_string (codes "//" ++ seed)) [
  | none ↦ panics
  | some key ↦ returns key
]

-- `vec!` of calls that may panic.
unfoldable pub all_of : {K L : Type 0} → (K → Outcome L) → List K → Outcome (List L)
all_of f [] = returns []
all_of f (x ∷ xs) = then_run (f x) λ y. then_run (all_of f xs) λ ys. returns (y ∷ ys)

module _ (keys : Keys) where
  unfoldable pub get_account_id_from_seed : List ℕ → Outcome keys.AccountId
  get_account_id_from_seed seed =
      then_run (get_from_seed keys.public_from_string seed)
        λ public. returns (keys.into_account public)

  unfoldable pub authority_keys_from_seed : List ℕ → Outcome (keys.AuraId × keys.GrandpaId)
  authority_keys_from_seed s =
      then_run (get_from_seed keys.aura_from_string s) λ aura.
        then_run (get_from_seed keys.grandpa_from_string s) λ grandpa. returns (aura, grandpa)

  unfoldable pub testnet_genesis :
      (wasm_binary : List ℕ) (initial_authorities : List (keys.AuraId × keys.GrandpaId))
      (root_key : keys.AccountId) (endowed_accounts : List keys.AccountId)
      → GenesisConfig keys
  testnet_genesis wasm_binary initial_authorities root_key endowed_accounts = record {
    code = wasm_binary;
    balances = map (λ k. (k, 2 ^ 60)) endowed_accounts;
    aura_authorities = map (λ x. x.0) initial_authorities;
    grandpa_authorities = map (λ x. (x.1, 1)) initial_authorities;
    sudo_key = some root_key;
  }

  -- The closure that both specifications have, with their seeds.
  unfoldable pub genesis_of :
      (wasm_binary : List ℕ) (authorities : List (List ℕ)) (root : List ℕ) (endowed : List (List ℕ))
      → Outcome (GenesisConfig keys)
  genesis_of wasm_binary authorities root endowed =
      then_run (all_of authority_keys_from_seed authorities) λ initial_authorities.
        then_run (get_account_id_from_seed root) λ root_key.
          then_run (all_of get_account_id_from_seed endowed) λ endowed_accounts.
            returns (testnet_genesis wasm_binary initial_authorities root_key endowed_accounts)

  -- `WASM_BINARY` is made by the build, if at all.
  abbrev pub no_wasm : SpecResult keys
  no_wasm = err (codes "Development wasm not available")

  unfoldable pub development_config : Option (List ℕ) → SpecResult keys
  development_config none = no_wasm
  development_config (some wasm_binary) = ok (record {
    name = codes "Development";
    id = codes "dev";
    chain_type = development;
    genesis =
        genesis_of wasm_binary (codes "Alice" ∷ []) (codes "Alice")
          (codes "Alice" ∷ codes "Bob" ∷ codes "Alice//stash" ∷ codes "Bob//stash" ∷ []);
  })

  unfoldable pub local_testnet_config : Option (List ℕ) → SpecResult keys
  local_testnet_config none = no_wasm
  local_testnet_config (some wasm_binary) = ok (record {
    name = codes "Local Testnet";
    id = codes "local_testnet";
    chain_type = local_type;
    genesis = genesis_of wasm_binary (codes "Alice" ∷ codes "Bob" ∷ []) (codes "Alice") (
        codes "Alice"
        ∷ codes "Bob"
        ∷ codes "Charlie"
        ∷ codes "Dave"
        ∷ codes "Eve"
        ∷ codes "Ferdie"
        ∷ codes "Alice//stash"
        ∷ codes "Bob//stash"
        ∷ codes "Charlie//stash"
        ∷ codes "Dave//stash"
        ∷ codes "Eve//stash"
        ∷ codes "Ferdie//stash"
        ∷ []);
  })

  -- `from_json_file` is the libraries': the specification in a file.
  unfoldable pub load_spec :
      (wasm : Option (List ℕ)) (from_json_file : List ℕ → SpecResult keys) (id : List ℕ)
      → SpecResult keys
  load_spec wasm from_json_file id =
      if same_codes id (codes "dev")
      then development_config wasm
      else (if same_codes id []
          then local_testnet_config wasm
          else (if same_codes id (codes "local")
              then local_testnet_config wasm
              else from_json_file id))
