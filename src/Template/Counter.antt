-- ===== src/Template/Counter.antt =====
-- pallets/template/src/lib.rs: how the stored number counts.
use native.Mathlib.Nat.{add-zero, add_assoc}
use substrate_aggregator.Prelude.{
  ℕ, zero, suc, ◌+◌, ◌-◌, ◌^◌, ◌<◌, ◌≡◌, refl, Option, some, [], ◌∷◌, ◌++◌, arith,
}
use substrate_aggregator.Template.{
  something_stored, State, Result, ok, err, pallet_error, storage_overflow, do_something,
  cause_error,
}

module _ {Account Origin : Type 0} (ensure_signed : Origin → Option Account) where
  -- The calls of `cause_error` one after the other, until one fails.
  unfoldable pub cause_errors : Origin → ℕ → State Account → Result Account
  cause_errors origin zero s = ok s
  cause_errors origin (suc n) s = elim (cause_errors origin n s) [
    | err e ↦ err e
    | ok s' ↦ cause_error ensure_signed origin s'
  ]

  module _ (origin : Origin) {who : Account} (signed : ensure_signed origin ≡ some who) where
    counted :
        (n x : ℕ) (s : State Account)
        → s.something ≡ some x
        → x + n < 2 ^ 32
        → cause_errors origin n s ≡ ok (record s { something = some (x + n) })
    unfolding cause_errors cause_error
    counted zero x s h fits = ground (arith, add-zero x)
    counted (suc n) x s h fits =
        rw (counted n x s h (omega arith)) (ground (arith, add_assoc x n 1))

    overflowed :
        (x : ℕ) (s : State Account)
        → s.something ≡ some x
        → x ≡ 2 ^ 32 - 1
        → cause_error ensure_signed origin s ≡ err (pallet_error storage_overflow)
    unfolding cause_error
    overflowed x s h e = ground arith

    -- A signer's number is stored, and an event names both. Each further call adds one to it and deposits
    -- nothing, as long as the number is in `u32`; and the call that would pass the largest number fails
    -- with an overflow.
    pub do_something-counts :
        (x n : ℕ) (s : State Account)
        → x + n < 2 ^ 32
        → (stored : State Account) × (do_something ensure_signed origin x s ≡ ok stored)
          × (stored.events ≡ s.events ++ something_stored x who ∷ [])
          × (cause_errors origin n stored ≡ ok (record stored { something = some (x + n) }))
          × (cause_errors origin (suc (2 ^ 32 - 1 - x)) stored
              ≡ err (pallet_error storage_overflow))
    unfolding do_something cause_errors
    do_something-counts x n s fits =
        let stored : State Account = record {
          something = some x;
          events = s.events ++ something_stored x who ∷ [];
        } in
        (
          stored,
          rw (signed, do_something) refl,
          refl,
          counted n x stored refl fits,
          rw (cause_errors, counted (2 ^ 32 - 1 - x) x stored refl (omega arith))
              (overflowed (x + (2 ^ 32 - 1 - x))
                (record stored { something = some (x + (2 ^ 32 - 1 - x)) }) refl (omega arith)),
        )
