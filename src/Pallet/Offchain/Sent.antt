-- ===== src/Pallet/Offchain/Sent.antt =====
-- pallets/aggregator/src/lib.rs: what the off-chain worker sends.
use substrate_aggregator.Prelude.{
  ℕ, ◌≡◌, refl, sym, ap, Option, none, some, Bool-cases, List, [], ◌∷◌, inl, inr, arith,
}
use substrate_aggregator.Ord.{Ord, nat_ord}
use substrate_aggregator.Types.{pair_ord}
use substrate_aggregator.Pallet.State.{Amount, Change, BestPathChangesPayload}
use substrate_aggregator.Pallet.Offchain.{done, Signer, send_changes, send}

module _ {C A : Type 0} ⦃a : Amount A⦄ ⦃o : Ord C⦄ where
  send-sent :
      {Public : Type 0} (signer : Signer Public C A) (payload p : BestPathChangesPayload Public C A)
      → send signer payload ≡ done (some p)
      → payload ≡ p
  send-sent signer payload p e = elim (Bool-cases (signer.submit payload)) [
    | inl taken ↦ ground arith
    | inr refused ↦ absurd (ground arith)
  ]

  -- What is sent has the changes, the current nonce and the block.
  pub send_changes-sent :
      {Public : Type 0} (signer : Signer Public C A) (nonce block_number : ℕ)
      (changes : List (Change C A)) (p : BestPathChangesPayload Public C A)
      → send_changes signer nonce block_number changes ≡ done (some p)
      → (p.changes ≡ changes) × (p.nonce ≡ nonce) × (p.block_number ≡ block_number)
  unfolding send_changes
  send_changes-sent signer nonce block_number [] p e = absurd (ground arith)
  send_changes-sent {Public} signer nonce block_number (c ∷ changes) p e =
      by_account signer.any_account refl
    where
      by_account :
          (account : Option Public)
          → signer.any_account ≡ account
          → (p.changes ≡ c ∷ changes) × (p.nonce ≡ nonce) × (p.block_number ≡ block_number)
      by_account none h = absurd (ground arith)
      by_account (some public) h =
          let sent =
            send-sent signer
              (record {
                changes = c ∷ changes;
                nonce = nonce;
                block_number = block_number;
                public = public;
              })
              p (rw h at e) in
          (
            sym (ap (λ x. x.changes) sent),
            sym (ap (λ x. x.nonce) sent),
            sym (ap (λ x. x.block_number) sent),
          )
