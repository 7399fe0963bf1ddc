-- ===== src/Pallet/Chain/Replay.antt =====
-- pallets/aggregator/src/lib.rs: the nonce of the unsigned calls, which protects from replay.
use substrate_aggregator.Prelude.{◌≡◌, sym, ◌∙◌, ℕ, ◌+◌, ◌%◌, ◌^◌, ◌<◌, true, false, arith}
use mathlib.Core.Bool.{false≢true}
use substrate_aggregator.Ord.{Ord}
use substrate_aggregator.Pallet.State.{
  Amount, Origins, BestPathChangesPayload, stale_unsigned_tx_error, pallet_error, ok, err, State,
}
use substrate_aggregator.Pallet.Config.{Config}
use substrate_aggregator.Pallet.BestPaths
use substrate_aggregator.Pallet.BestPaths.{next_nonce}
use substrate_aggregator.Pallet.BestPaths.Accepted.{accepted_iff, nonce-ocw_submit, stale_of_ne}
use substrate_aggregator.Pallet.Validate.{
  Call, ocw_submit_best_paths_changes, submit_monitored_pairs, add_whitelisted_offchain_authority,
  trade, Crypto, IsTrusted, trusted, IsTrusted-of_valid,
}
use substrate_aggregator.Pallet.Chain.{
  dispatch, World, extrinsic, unsigned, next_block, Reach, here, next,
}
use substrate_aggregator.Pallet.Chain.Frame.{
  submit_monitored_pairs-Keeps, trade-Keeps, add_whitelisted-Keeps,
}

module _ {Account Public Signature C A : Type 0} ⦃a : Amount A⦄ ⦃o : Ord C⦄ ⦃ka : Ord Account⦄
    (f : Origins Account) (config : Config) (crypto : Crypto Account Public Signature C A) where
  nonce-extrinsic :
      (origin : f.Origin) (c : Call Account Public Signature C A) (s : State Account C A)
      {t : State Account C A}
      → f.ensure_none origin ≡ false
      → dispatch f origin c s ≡ ok t
      → t.unsigned_tx_nonce ≡ s.unsigned_tx_nonce
  unfolding dispatch
  nonce-extrinsic origin (submit_monitored_pairs ops) s refused e =
      (submit_monitored_pairs-Keeps f origin ops s e).nonce
  nonce-extrinsic origin (add_whitelisted_offchain_authority x) s refused e =
      (add_whitelisted-Keeps f origin x s e).nonce
  nonce-extrinsic origin (trade source target amount) s refused e =
      (trade-Keeps f origin source target amount s e).nonce
  nonce-extrinsic origin (ocw_submit_best_paths_changes p signature) s refused e =
      absurd (false≢true (sym refused ∙ ((accepted_iff f origin p s).0 (_, e)).0))

  nonce-unsigned :
      {block : ℕ} {s : State Account C A} {c : Call Account Public Signature C A}
      (origin : f.Origin) {t : State Account C A}
      → IsTrusted config crypto block s c
      → dispatch f origin c s ≡ ok t
      → t.unsigned_tx_nonce ≡ next_nonce s.unsigned_tx_nonce
  unfolding dispatch
  nonce-unsigned {s = s} origin (trusted {p = p} signed fresh listed) e =
      (nonce-ocw_submit f origin p s e).1

  -- In a reachable world the nonce has grown, as a `u64`, by the number of unsigned calls applied.
  pub nonce-Reach :
      {w u : World Account C A} {n : ℕ}
      → Reach f config crypto w n u
      → w.state.unsigned_tx_nonce < 2 ^ 64
      → u.state.unsigned_tx_nonce ≡ (w.state.unsigned_tx_nonce + n) % 2 ^ 64
  nonce-Reach here h = omega arith
  nonce-Reach (next r (extrinsic origin c refused e)) h =
      omega (arith, nonce-extrinsic origin c _ refused e, nonce-Reach r h)
  nonce-Reach (next r (unsigned {w = v} origin c allowed taken e)) h = omega (
    arith,
    nonce-unsigned origin ((IsTrusted-of_valid config crypto v.block c v.state taken).1) e,
    nonce-Reach r h,
  )
  nonce-Reach (next r (next_block block later)) h = omega (arith, nonce-Reach r h)

  -- A submission that was accepted is refused as stale in every world that is reached afterwards
  -- with fewer than 2^64 - 1 further unsigned calls.
  pub replay-stale :
      (origin : f.Origin) (p : BestPathChangesPayload Public C A) (w : World Account C A)
      {v u : World Account C A} {n : ℕ} (again : f.Origin)
      → w.state.unsigned_tx_nonce < 2 ^ 64
      → BestPaths.ocw_submit_best_paths_changes f origin p w.state ≡ ok v.state
      → Reach f config crypto v n u
      → n + 1 < 2 ^ 64
      → f.ensure_none again ≡ true
      → BestPaths.ocw_submit_best_paths_changes f again p u.state
        ≡ err (pallet_error stale_unsigned_tx_error)
  replay-stale origin p w {v} {u} again fits e r few allowed =
      let (current, bumped) = nonce-ocw_submit f origin p w.state e in
      stale_of_ne f again p u.state allowed λ same. omega (arith, nonce-Reach r (omega arith))
