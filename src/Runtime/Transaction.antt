-- ===== src/Runtime/Transaction.antt =====
-- runtime/src/lib.rs: `create_transaction`, which signs a call for an account, and the extra data that the
-- runtime signs with a call. Signed payloads, eras and keys are those of Substrate's crates.
use substrate_aggregator.Prelude.{
  ◌>>=◌, Option-cases, ℕ, ◌+◌, ◌-◌, ◌≤◌, ◌<◌, ◌≡◌, refl, ◌⊎◌, inl, inr, Option, none, some, Bool,
  true, arith,
}

-- The signed extensions with data. The other five, which check the sender, the version of the runtime and
-- of transactions, the genesis and the weight, carry none.
pub record SignedExtra (Era : Type 0) : Type 0 where
  pub check_era : Era
  pub check_nonce : ℕ
  pub charge_transaction_payment : ℕ

-- What is taken from the crates: `System::block_number`, `Era::mortal`, `SignedPayload::new` and
-- `deconstruct`, `C::sign` on the encoded payload, and `MultiAddress::Id`.
pub record Signing (Call Public Account Signature : Type 0) : Type 1 where
  pub Era : Type 0
  pub TransactionValidityError : Type 0
  pub AdditionalSigned : Type 0
  pub SignedPayload : Type 0
  pub Address : Type 0
  pub id : Account → Address
  pub block_number : ℕ
  pub mortal : ℕ → ℕ → Era
  pub new : Call → SignedExtra Era → TransactionValidityError ⊎ SignedPayload
  pub deconstruct : SignedPayload → Call × SignedExtra Era × AdditionalSigned
  pub sign : SignedPayload → Public → Option Signature

abbrev pub block_hash_count : ℕ
block_hash_count = 2400

abbrev pub ok : {E R : Type 0} → E ⊎ R → Option R
ok (inl e) = none
ok (inr r) = some r

-- What the crates document: a payload is taken apart into the call and the data that it was made from, a
-- signature holds for the payload and key that it was made with, and an era of at most 4096 blocks
-- lives from its block on for that many blocks.
pub record Documented {Call Public Account Signature : Type 0}
    (crates : Signing Call Public Account Signature) : Type 0 where
  pub verify : crates.SignedPayload → Public → Signature → Bool
  pub is_alive : crates.Era → ℕ → Bool
  pub parts :
      (call : Call) (extra : SignedExtra crates.Era) (p : crates.SignedPayload)
      → crates.new call extra ≡ inr p
      → ((crates.deconstruct p).0 ≡ call) × ((crates.deconstruct p).1 ≡ extra)
  pub holds :
      (p : crates.SignedPayload) (public : Public) (signature : Signature)
      → crates.sign p public ≡ some signature
      → verify p public signature ≡ true
  pub lives :
      (period current block : ℕ)
      → period ≤ 4096
      → current ≤ block
      → block < current + period
      → is_alive (crates.mortal period current) block ≡ true

Sum-cases : {E R : Type 0} (x : E ⊎ R) → ((e : E) × (x ≡ inl e)) ⊎ ((r : R) × (x ≡ inr r))
Sum-cases (inl e) = inl (e, refl)
Sum-cases (inr r) = inr (r, refl)

module _ {Call Public Account Signature : Type 0}
    (crates : Signing Call Public Account Signature) where
  abbrev signed_extra : ℕ → SignedExtra crates.Era
  signed_extra index =
      let period : ℕ = block_hash_count in
      let current_block : ℕ = crates.block_number - 1 in
      let tip : ℕ = 0 in
      record {
        check_era = crates.mortal period current_block;
        check_nonce = index;
        charge_transaction_payment = tip;
      }

  abbrev pub Transaction : Type 0
  Transaction = Call × crates.Address × Signature × SignedExtra crates.Era

  unfoldable pub create_transaction : Call → Public → Account → ℕ → Option Transaction
  create_transaction call public account index = do
    raw_payload ← ok (crates.new call (signed_extra index))
    signature ← crates.sign raw_payload public
    let address = account
    let (call, extra, _) = crates.deconstruct raw_payload
    some (call, crates.id address, signature, extra)

  -- Let the crates do what they document. Then no transaction is made exactly when the payload is
  -- refused or its signature is; or the transaction has the call, the account's address, the index as
  -- its nonce and no tip, its signature holds for the call and the data it carries, and its era
  -- lives from the current block on for at least 2399 blocks.
  pub create_transaction-cases :
      (laws : Documented crates) (call : Call) (public : Public) (account : Account) (index : ℕ)
      → ((create_transaction call public account index ≡ none)
          × (((e : crates.TransactionValidityError) × (crates.new call (signed_extra index)
                  ≡ inl e))
              ⊎ ((p : crates.SignedPayload) × (crates.new call (signed_extra index) ≡ inr p)
                  × (crates.sign p public ≡ none))))
        ⊎ ((signature : Signature) × (extra : SignedExtra crates.Era) × (p : crates.SignedPayload)
            × (create_transaction call public account index
                ≡ some (call, crates.id account, signature, extra))
            × (crates.new call extra ≡ inr p)
            × (laws.verify p public signature ≡ true)
            × (extra.check_nonce ≡ index)
            × (extra.charge_transaction_payment ≡ 0)
            × ((block : ℕ)
                → crates.block_number ≤ block
                → block < crates.block_number + 2399
                → laws.is_alive extra.check_era block ≡ true))
  unfolding create_transaction
  create_transaction-cases laws call public account index =
      let extra = signed_extra index in
      elim (Sum-cases (crates.new call extra)) [
        | inl (e, refused) ↦ inl (rw refused refl, inl (e, refused))
        | inr (p, made) ↦ elim (Option-cases (crates.sign p public)) [
          | inl unsigned ↦ inl (rw (made, unsigned) refl, inr (p, made, unsigned))
          | inr (signature, signed) ↦
              let (same, carried) = laws.parts call extra p made in
              inr (
                signature,
                extra,
                p,
                rw (made, signed, same, carried) refl,
                made,
                laws.holds p public signature signed,
                refl,
                refl,
                λ block from until.
                    laws.lives 2400 (crates.block_number - 1) block (omega arith) (omega arith)
                      (omega arith),
              )
        ]
      ]
