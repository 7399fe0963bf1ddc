-- ===== src/Pallet/Chain/Provenance.antt =====
-- pallets/aggregator/src/lib.rs: where the best paths of a reachable state come from.
use mathlib.Core.Bool.{false≢true}
use substrate_aggregator.Prelude.{
  ◌≡◌, ap, sym, ◌∙◌, ℕ, true, false, some, arith, List, [], ◌∷◌, ◌⊎◌, inl, inr, Bool-cases, ◌∈◌,
}
use substrate_aggregator.Ord.{Ord, ◌==◌, ==_iff}
use substrate_aggregator.Storage.{Storage, write_lem}
use substrate_aggregator.Types.{Pair, PricePath, pair_ord}
use substrate_aggregator.Pallet.State.{
  Amount, Origins, Change, PriceEntry, BestPathChangesPayload, ok, State,
}
use substrate_aggregator.Pallet.Config.{Config}
use substrate_aggregator.Pallet.BestPaths
use substrate_aggregator.Pallet.BestPaths.{pair_of, change_path, apply_changes}
use substrate_aggregator.Pallet.BestPaths.Accepted.{
  accepted_iff, best_paths-ocw_submit, whitelist-ocw_submit,
}
use substrate_aggregator.Pallet.BestPaths.Latest.{change_path_lem}
use substrate_aggregator.Pallet.Validate.{
  Call, ocw_submit_best_paths_changes, submit_monitored_pairs, add_whitelisted_offchain_authority,
  trade, Crypto, IsTrusted, trusted, IsTrusted-of_valid,
}
use substrate_aggregator.Pallet.Chain.{
  dispatch, World, Step, extrinsic, unsigned, next_block, Reach, here, next,
}
use substrate_aggregator.Pallet.Chain.Frame.{
  Keeps, submit_monitored_pairs-Keeps, trade-Keeps, add_whitelisted-Keeps,
}

module _ {C A : Type 0} ⦃a : Amount A⦄ ⦃o : Ord C⦄ where
  abbrev change_to : Pair C → PricePath C A → Change C A
  change_to k path = (k.source, k.target, some path)

  -- A path that the loop leaves was there, or a change asks for it.
  apply_changes-source :
      (cs : List (Change C A)) (m : Storage (Pair C) (PricePath C A)) (es : List (PriceEntry C A))
      (k : Pair C) (path : PricePath C A)
      → (apply_changes cs m es).0 k ≡ some path
      → (m k ≡ some path) ⊎ (change_to k path ∈ cs)
  unfolding apply_changes
  apply_changes-source [] m es k path h = inl h
  apply_changes-source (c ∷ cs) m es k path h = elim (apply_changes-source cs _ _ k path h) [
    | inr later ↦ inr (inr later)
    | inl now ↦ elim (Bool-cases (pair_of c == k)) [
      | inl e ↦
          let same : pair_of c ≡ k = (==_iff (pair_of c) k).0 e in
          let asks : c.2 ≡ some path =
            sym (change_path_lem c (m (pair_of c)))
            ∙ (sym (write_lem (pair_of c) k _ m ∙ rw e) ∙ now) in
          inr (inl (ground arith))
      | inr e ↦ inl (sym (write_lem (pair_of c) k _ m ∙ rw e) ∙ now)
    ]
  ]

module _ {Account Public Signature C A : Type 0} ⦃a : Amount A⦄ ⦃o : Ord C⦄ ⦃ka : Ord Account⦄
    (f : Origins Account) (config : Config) (crypto : Crypto Account Public Signature C A) where
  -- The path was asked for by a payload that is signed under a key whose account is on the
  -- whitelist.
  pub record Authorised (s : State Account C A) (k : Pair C) (path : PricePath C A) : Type 0 where
    pub payload : BestPathChangesPayload Public C A
    pub signature : Signature
    pub signed : crypto.verify payload signature ≡ true
    pub asked : change_to k path ∈ payload.changes
    pub listed : s.whitelisted_offchain_authorities (crypto.into_account payload.public) ≡ some tt

  -- Every best path is authorised.
  abbrev pub IsAuthorised : State Account C A → Type 0
  IsAuthorised s =
      (k : Pair C) (path : PricePath C A) → s.best_paths k ≡ some path → Authorised s k path

  Authorised-mono :
      {s t : State Account C A} {k : Pair C} {path : PricePath C A}
      → ((x : Account)
          → s.whitelisted_offchain_authorities x ≡ some tt
          → t.whitelisted_offchain_authorities x ≡ some tt)
      → Authorised s k path
      → Authorised t k path
  Authorised-mono keeps old = record {
    payload = old.payload;
    signature = old.signature;
    signed = old.signed;
    asked = old.asked;
    listed = keeps _ old.listed;
  }

  Keeps-IsAuthorised : {s t : State Account C A} → Keeps s t → IsAuthorised s → IsAuthorised t
  Keeps-IsAuthorised keeps h k path e =
      Authorised-mono keeps.whitelist (h k path (sym (ap (λ m. m k) keeps.paths) ∙ e))

  -- The call that writes paths, applied as an unsigned one that the pool has taken.
  ocw_submit-IsAuthorised :
      (origin : f.Origin) (p : BestPathChangesPayload Public C A) (signature : Signature)
      (s : State Account C A) {t : State Account C A}
      → crypto.verify p signature ≡ true
      → s.whitelisted_offchain_authorities (crypto.into_account p.public) ≡ some tt
      → BestPaths.ocw_submit_best_paths_changes f origin p s ≡ ok t
      → IsAuthorised s
      → IsAuthorised t
  ocw_submit-IsAuthorised origin p signature s signed listed e h k path e' =
      let same = whitelist-ocw_submit f origin p s e in
      elim (apply_changes-source p.changes s.best_paths [] k path
        (sym (ap (λ m. m k) (best_paths-ocw_submit f origin p s e)) ∙ e')) [
          | inl old ↦ Authorised-mono (λ x g. ap (λ m. m x) same ∙ g) (h k path old)
          | inr asked ↦ record {
            payload = p;
            signature = signature;
            signed = signed;
            asked = asked;
            listed = ap (λ m. m (crypto.into_account p.public)) same ∙ listed;
          }
        ]

  dispatch-IsAuthorised :
      (origin : f.Origin) (c : Call Account Public Signature C A) (s : State Account C A)
      {t : State Account C A} {block : ℕ}
      → (f.ensure_none origin ≡ false) ⊎ IsTrusted config crypto block s c
      → dispatch f origin c s ≡ ok t
      → IsAuthorised s
      → IsAuthorised t
  unfolding dispatch
  dispatch-IsAuthorised origin (submit_monitored_pairs ops) s why e h =
      Keeps-IsAuthorised (submit_monitored_pairs-Keeps f origin ops s e) h
  dispatch-IsAuthorised origin (add_whitelisted_offchain_authority x) s why e h =
      Keeps-IsAuthorised (add_whitelisted-Keeps f origin x s e) h
  dispatch-IsAuthorised origin (trade source target amount) s why e h =
      Keeps-IsAuthorised (trade-Keeps f origin source target amount s e) h
  dispatch-IsAuthorised origin (ocw_submit_best_paths_changes p signature) s (inl refused) e h =
      absurd (false≢true (sym refused ∙ ((accepted_iff f origin p s).0 (_, e)).0))
  dispatch-IsAuthorised origin (ocw_submit_best_paths_changes p signature) s
        (inr (trusted signed fresh listed)) e h =
      ocw_submit-IsAuthorised origin p signature s signed listed e h

  Step-IsAuthorised :
      {w u : World Account C A} {n : ℕ}
      → Step f config crypto w n u
      → IsAuthorised w.state
      → IsAuthorised u.state
  Step-IsAuthorised {w} (extrinsic origin c refused e) h =
      dispatch-IsAuthorised origin c w.state {block = w.block} (inl refused) e h
  Step-IsAuthorised {w} (unsigned origin c allowed taken e) h =
      dispatch-IsAuthorised origin c w.state
        (inr ((IsTrusted-of_valid config crypto w.block c w.state taken).1)) e h
  Step-IsAuthorised (next_block block later) h = h

  -- From a world whose best paths are all authorised, as one with none is, every reachable world has
  -- only best paths that a payload asked for which is signed under a whitelisted account's key.
  pub Reach-IsAuthorised :
      {w u : World Account C A} {n : ℕ}
      → Reach f config crypto w n u
      → IsAuthorised w.state
      → IsAuthorised u.state
  Reach-IsAuthorised here h = h
  Reach-IsAuthorised (next r st) h = Step-IsAuthorised st (Reach-IsAuthorised r h)
