-- ===== src/Node/ChainSpec/Funds.antt =====
-- node/src/chain_spec.rs: who is funded at genesis.
use substrate_aggregator.Prelude.{ℕ, ◌+◌, ◌≡◌, some, List, [], ◌∷◌, ◌++◌, codes}
use substrate_aggregator.Node.ChainSpec.{Keys}

module _ (keys : Keys) where
  -- The sum of the balances.
  abbrev pub issued : List (keys.AccountId × ℕ) → ℕ
  issued [] = 0
  issued ((account, balance) ∷ balances) = balance + issued balances

  -- The seed with "//" before it gives a key of accounts, or keys of both kinds for an authority.
  abbrev pub GivesAccount : List ℕ → Type 0
  GivesAccount seed = (k : keys.Public) × (keys.public_from_string (codes "//" ++ seed) ≡ some k)

  abbrev pub GivesAuthority : List ℕ → Type 0
  GivesAuthority seed =
      ((k : keys.AuraId) × (keys.aura_from_string (codes "//" ++ seed) ≡ some k))
      × ((k : keys.GrandpaId) × (keys.grandpa_from_string (codes "//" ++ seed) ≡ some k))
