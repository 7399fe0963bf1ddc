-- ===== src/Pallet/Chain/Frame.antt =====
-- pallets/aggregator/src/lib.rs: what each call leaves alone.
use substrate_aggregator.Prelude.{◌≡◌, some, arith, List}
use substrate_aggregator.Ord.{Ord}
use substrate_aggregator.Storage.{write_lem}
use substrate_aggregator.Types.{ProviderPairOperation}
use substrate_aggregator.Pallet.State.{Amount, Origins, ok, State}
use substrate_aggregator.Pallet.MonitoredPairs.{submit_monitored_pairs}
use substrate_aggregator.Pallet.Trade.{trade, add_whitelisted_offchain_authority}

-- The paths and the nonce are as they were, and no account leaves the whitelist.
pub record Keeps {Account C A : Type 0} (s t : State Account C A) : Type 0 where
  pub paths : t.best_paths ≡ s.best_paths
  pub nonce : t.unsigned_tx_nonce ≡ s.unsigned_tx_nonce
  pub whitelist :
      (x : Account)
      → s.whitelisted_offchain_authorities x ≡ some tt
      → t.whitelisted_offchain_authorities x ≡ some tt

module _ {Account C A : Type 0} (f : Origins Account) (origin : f.Origin) where
  pub submit_monitored_pairs-Keeps :
      ⦃o : Ord C⦄ (ops : List (ProviderPairOperation C)) (s : State Account C A)
      {t : State Account C A}
      → submit_monitored_pairs f origin ops s ≡ ok t
      → Keeps s t
  unfolding submit_monitored_pairs
  submit_monitored_pairs-Keeps ops s e = record {
    paths = ground arith;
    nonce = ground arith;
    whitelist = λ x h. ground arith;
  }

  pub trade-Keeps :
      ⦃a : Amount A⦄ (source target : C) (amount : A) (s : State Account C A)
      {t : State Account C A}
      → trade f origin source target amount s ≡ ok t
      → Keeps s t
  unfolding trade
  trade-Keeps source target amount s e = record {
    paths = ground arith;
    nonce = ground arith;
    whitelist = λ x h. ground arith;
  }

  pub add_whitelisted-Keeps :
      ⦃k : Ord Account⦄ (x : Account) (s : State Account C A) {t : State Account C A}
      → add_whitelisted_offchain_authority f origin x s ≡ ok t
      → Keeps s t
  unfolding add_whitelisted_offchain_authority
  add_whitelisted-Keeps x s e = record {
    paths = ground arith;
    nonce = ground arith;
    whitelist = λ y h. ground (arith, write_lem x y (some tt) s.whitelisted_offchain_authorities);
  }
