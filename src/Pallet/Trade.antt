-- ===== src/Pallet/Trade.antt =====
-- pallets/aggregator/src/lib.rs: `trade`, the skeleton that the pallet has, and
-- `add_whitelisted_offchain_authority`.
use substrate_aggregator.Prelude.{
  ◌≡◌, none, some, if◌then◌else◌, arith, ◌↔◌, inl, inr, Option-cases,
}
use substrate_aggregator.Ord.{Ord}
use substrate_aggregator.Storage.{write}
use substrate_aggregator.Types.{PricePath}
use substrate_aggregator.Pallet.State.{
  Amount, Origins, trade_performed, whitelisted_offchain_authority_added, bad_origin, pallet_error,
  price_pair_not_found_error, Result, ok, err, State, deposit_event,
}

module _ {C A Account : Type 0} (f : Origins Account) where
  module _ ⦃a : Amount A⦄ where
    unfoldable pub trade : f.Origin → C → C → A → State Account C A → Result (State Account C A)
    trade origin source target amount s = elim (f.ensure_signed origin) [
      | none ↦ err bad_origin
      | some owner ↦ elim (s.best_paths (record { source = source; target = target })) [
        | none ↦ err (pallet_error price_pair_not_found_error)
        | some price_path ↦
            let cost = price_path.total_cost in
            let target_amount = a.mul amount cost in
            ok (deposit_event (trade_performed owner source target cost amount target_amount) s)
      ]
    ]

    -- A trade succeeds exactly if the origin is a signer and the pair has a best path; it then
    -- changes nothing but the events, and reports the signer, the path's cost and the product.
    pub trade_iff :
        (origin : f.Origin) (source target : C) (amount : A) (s s' : State Account C A)
        → (trade origin source target amount s ≡ ok s') ↔ (
            (owner : Account) × (path : PricePath C A) × (f.ensure_signed origin ≡ some owner)
            × (s.best_paths (record { source = source; target = target }) ≡ some path)
            × (s'
                ≡ deposit_event
                    (trade_performed owner source target path.total_cost amount
                      (a.mul amount path.total_cost))
                    s))
    unfolding trade
    trade_iff origin source target amount s s' = (
      λ h. elim (Option-cases (f.ensure_signed origin)) [
        | inl e ↦ absurd (ground arith)
        | inr (owner, e) ↦
            elim (Option-cases (s.best_paths (record { source = source; target = target }))) [
              | inl e' ↦ absurd (ground arith)
              | inr (path, e') ↦ (owner, path, e, e', ground arith)
            ]
      ],
      λ h. ground arith,
    )

  module _ ⦃k : Ord Account⦄ where
    unfoldable pub add_whitelisted_offchain_authority :
        f.Origin → Account → State Account C A → Result (State Account C A)
    add_whitelisted_offchain_authority origin offchain_authority s =
        if f.ensure_root origin
        then (let noted =
              deposit_event (whitelisted_offchain_authority_added offchain_authority) s in
            ok (record noted {
              whitelisted_offchain_authorities =
                  write offchain_authority (some tt) noted.whitelisted_offchain_authorities;
            }))
        else err bad_origin
