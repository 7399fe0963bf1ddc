-- ===== src/Template.antt =====
-- pallets/template/src/lib.rs: the template pallet, which stores a number that can be incremented.
pub mod Counter
use substrate_aggregator.Prelude.{
  ℕ, ◌+◌, ◌^◌, Option, none, some, List, [], ◌∷◌, ◌++◌, ltb, if◌then◌else◌,
}

pub data Event (Account : Type 0) : Type 0 where
  something_stored : ℕ → Account → Event Account

pub data Error : Type 0 where
  none_value : Error
  storage_overflow : Error

-- What a dispatch fails with: the runtime's refusal of an origin, or an error of the pallet.
pub data DispatchError : Type 0 where
  bad_origin : DispatchError
  pallet_error : Error → DispatchError

-- The storage item `Something`, and the deposited events in order.
pub record State (Account : Type 0) : Type 0 where
  pub something : Option ℕ
  pub events : List (Event Account)

-- No call fails after it has written, so a failure carries no state.
pub data Result (Account : Type 0) : Type 0 where
  ok : State Account → Result Account
  err : DispatchError → Result Account

-- `checked_add` on `u32`.
abbrev pub checked_add : ℕ → ℕ → Option ℕ
checked_add a b = if ltb (a + b) (2 ^ 32) then some (a + b) else none

-- `ensure_signed` is the runtime's: the account of a signed origin.
module _ {Account Origin : Type 0} (ensure_signed : Origin → Option Account) where
  unfoldable pub do_something : Origin → ℕ → State Account → Result Account
  do_something origin something s = elim (ensure_signed origin) [
    | none ↦ err bad_origin
    | some who ↦ ok (record {
      something = some something;
      events = s.events ++ something_stored something who ∷ [];
    })
  ]

  unfoldable pub cause_error : Origin → State Account → Result Account
  cause_error origin s = elim (ensure_signed origin) [
    | none ↦ err bad_origin
    | some who ↦ elim s.something [
      | none ↦ err (pallet_error none_value)
      | some old ↦ elim (checked_add old 1) [
        | none ↦ err (pallet_error storage_overflow)
        | some new ↦ ok (record s { something = some new })
      ]
    ]
  ]
