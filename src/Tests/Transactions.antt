-- ===== src/Tests/Transactions.antt =====
-- Transactions of small calls: the payload of the call 13 is refused, and only the key 7 signs.
use substrate_aggregator.Prelude.{
  ℕ, ◌+◌, ◌≤◌, ◌<◌, ◌≡◌, ◌⊎◌, inl, inr, Option, none, some, Bool, true, arith, ltb, leb, nat_eq,
  if◌then◌else◌, ◌&&◌,
}
use substrate_aggregator.Runtime.Transaction.{
  SignedExtra, Signing, Documented, create_transaction, create_transaction-cases,
}

pub record SmallPayload : Type 0 where
  pub call : ℕ
  pub extra : SignedExtra (ℕ × ℕ)

abbrev small_new : ℕ → SignedExtra (ℕ × ℕ) → Unit {0} ⊎ SmallPayload
small_new call extra =
    if nat_eq call 13 then inl tt else inr (record { call = call; extra = extra })

abbrev small_sign : SmallPayload → ℕ → Option ℕ
small_sign payload public = if nat_eq public 7 then some (payload.call + 100) else none

abbrev crates : Signing ℕ ℕ ℕ ℕ
crates = record {
  Era = ℕ × ℕ;
  TransactionValidityError = Unit {0};
  AdditionalSigned = Unit {0};
  SignedPayload = SmallPayload;
  Address = ℕ;
  id = λ account. account;
  block_number = 50;
  mortal = λ period current. (current, current + period);
  new = small_new;
  deconstruct = λ payload. (payload.call, payload.extra, tt);
  sign = small_sign;
}

abbrev small_alive : ℕ × ℕ → ℕ → Bool
small_alive (birth, death) block = leb birth block && ltb block death

parts :
    (call : ℕ) (extra : SignedExtra (ℕ × ℕ)) (p : SmallPayload)
    → small_new call extra ≡ inr p
    → (p.call ≡ call) × (p.extra ≡ extra)
parts call extra p h = grind arith

holds :
    (p : SmallPayload) (public signature : ℕ)
    → small_sign p public ≡ some signature
    → nat_eq signature (p.call + 100) ≡ true
holds p public signature h = grind arith

lives :
    (period current block : ℕ)
    → period ≤ 4096
    → current ≤ block
    → block < current + period
    → small_alive (current, current + period) block ≡ true
lives period current block h k l = ground arith

abbrev documented : Documented crates
documented = record {
  verify = λ payload public signature. nat_eq signature (payload.call + 100);
  is_alive = small_alive;
  parts = parts;
  holds = holds;
  lives = lives;
}

create_transaction-cases_example :
    ((create_transaction crates 5 7 9 2 ≡ none)
      × (((e : Unit {0}) × (small_new 5
                (record { check_era = (49, 2449); check_nonce = 2; charge_transaction_payment = 0 })
              ≡ inl e))
          ⊎ ((p : SmallPayload) × (small_new 5 (record {
            check_era = (49, 2449);
            check_nonce = 2;
            charge_transaction_payment = 0;
          })
                ≡ inr p)
              × (small_sign p 7 ≡ none))))
    ⊎ ((signature : ℕ) × (extra : SignedExtra (ℕ × ℕ)) × (p : SmallPayload) × (create_transaction
            crates 5 7 9 2
          ≡ some (5, 9, signature, extra))
        × (small_new 5 extra ≡ inr p)
        × (nat_eq signature (p.call + 100) ≡ true)
        × (extra.check_nonce ≡ 2)
        × (extra.charge_transaction_payment ≡ 0)
        × ((block : ℕ) → 50 ≤ block → block < 2449 → small_alive extra.check_era block ≡ true))
create_transaction-cases_example = create_transaction-cases crates documented 5 7 9 2
