-- ===== src/Pallet/Validate.antt =====
-- pallets/aggregator/src/lib.rs: the calls of the pallet, and `validate_unsigned`, which decides
-- which of them the pool takes without a signature of the transaction.
use substrate_aggregator.Prelude.{
  ℕ, ◌≤◌, ◌≡◌, Bool, true, not, none, some, List, ltb, if◌then◌else◌, arith, ◌↔◌, sym, ap, ◌∙◌,
}
use substrate_aggregator.Types.{ProviderPairOperation}
use substrate_aggregator.Pallet.State.{BestPathChangesPayload, State}
use substrate_aggregator.Pallet.Config.{Config, add_blocks}

pub data Call (Account Public Signature C A : Type 0) : Type 0 where
  ocw_submit_best_paths_changes :
      BestPathChangesPayload Public C A → Signature → Call Account Public Signature C A
  submit_monitored_pairs : List (ProviderPairOperation C) → Call Account Public Signature C A
  add_whitelisted_offchain_authority : Account → Call Account Public Signature C A
  trade : C → C → A → Call Account Public Signature C A

-- The keys and signatures, which the runtime's crypto defines: whether a signature is one of the
-- payload under its public key, and the account of a key.
pub record Crypto (Account Public Signature C A : Type 0) : Type 0 where
  pub verify : BestPathChangesPayload Public C A → Signature → Bool
  pub into_account : Public → Account

pub data InvalidTransaction : Type 0 where
  bad_proof : InvalidTransaction
  stale : InvalidTransaction
  call : InvalidTransaction

-- The tag that the transaction provides is `TX_TAG` with the block; its prefix is
-- "AggregatorWorker".
pub record ValidTransaction : Type 0 where
  pub priority : ℕ
  pub provides_block : ℕ
  pub longevity : ℕ
  pub propagate : Bool

pub data TransactionValidity : Type 0 where
  valid : ValidTransaction → TransactionValidity
  invalid : InvalidTransaction → TransactionValidity

module _ {Account Public Signature C A : Type 0} (config : Config)
    (crypto : Crypto Account Public Signature C A) where
  -- `current_block` is the runtime's block number.
  unfoldable pub validate_unsigned :
      (current_block : ℕ)
      → Call Account Public Signature C A
      → State Account C A
      → TransactionValidity
  validate_unsigned current_block (ocw_submit_best_paths_changes payload signature) s =
      if not (crypto.verify payload signature)
      then invalid bad_proof
      else (if ltb (add_blocks config payload.block_number config.max_tx_pool_stay_time)
            current_block
          then invalid stale
          else (elim (s.whitelisted_offchain_authorities (crypto.into_account payload.public)) [
            | none ↦ invalid bad_proof
            | some _ ↦ valid (record {
              priority = config.unsigned_priority;
              provides_block = current_block;
              longevity = 5;
              propagate = true;
            })
          ]))
  validate_unsigned current_block (submit_monitored_pairs operations) s = invalid call
  validate_unsigned current_block (add_whitelisted_offchain_authority account) s = invalid call
  validate_unsigned current_block (trade source target amount) s = invalid call

  -- What makes an unsigned call acceptable: it submits paths, its payload is signed under its
  -- public key, is not older than the pool allows, and the key's account is on the whitelist.
  pub data IsTrusted (current_block : ℕ) (s : State Account C A)
      : Call Account Public Signature C A → Type 0 where
    trusted :
        {p : BestPathChangesPayload Public C A} {signature : Signature}
        → crypto.verify p signature ≡ true
        → current_block ≤ add_blocks config p.block_number config.max_tx_pool_stay_time
        → s.whitelisted_offchain_authorities (crypto.into_account p.public) ≡ some tt
        → IsTrusted current_block s (ocw_submit_best_paths_changes p signature)

  -- With what a call is taken at a block.
  abbrev pub tagged_at : ℕ → ValidTransaction
  tagged_at block = record {
    priority = config.unsigned_priority;
    provides_block = block;
    longevity = 5;
    propagate = true;
  }

  pub IsTrusted-of_valid :
      (block : ℕ) (c : Call Account Public Signature C A) (s : State Account C A)
      {v : ValidTransaction}
      → validate_unsigned block c s ≡ valid v
      → (v ≡ tagged_at block) × IsTrusted block s c
  unfolding validate_unsigned
  IsTrusted-of_valid block (ocw_submit_best_paths_changes p signature) s h =
      (ground arith, trusted (ground arith) (ground arith) (ground arith))
  IsTrusted-of_valid block (submit_monitored_pairs operations) s h = cc
  IsTrusted-of_valid block (add_whitelisted_offchain_authority account) s h = cc
  IsTrusted-of_valid block (trade source target amount) s h = cc

  valid_of_trusted :
      {block : ℕ} {s : State Account C A} {c : Call Account Public Signature C A}
      → IsTrusted block s c
      → validate_unsigned block c s ≡ valid (tagged_at block)
  unfolding validate_unsigned
  valid_of_trusted (trusted signed fresh listed) = ground arith

  -- The pool takes an unsigned call, with whatever tag, exactly if the tag is that of the current block
  -- with the configured priority, a longevity of 5 and propagation, and the call submits paths, its
  -- payload is signed under its public key and not too old, and the key's account is on the whitelist.
  pub validate_unsigned_iff :
      (block : ℕ) (c : Call Account Public Signature C A) (s : State Account C A)
      (v : ValidTransaction)
      → (validate_unsigned block c s ≡ valid v) ↔ ((v ≡ tagged_at block) × IsTrusted block s c)
  validate_unsigned_iff block c s v =
      (λ h. IsTrusted-of_valid block c s h, λ (same, t). valid_of_trusted t ∙ ap valid (sym same))
