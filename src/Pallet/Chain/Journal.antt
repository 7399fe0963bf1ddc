-- ===== src/Pallet/Chain/Journal.antt =====
-- pallets/aggregator/src/lib.rs: what a reader of all events knows of the state.
use mathlib.Core.List.{append_assoc, append-nil}
use substrate_aggregator.Prelude.{
  ℕ, ◌≡◌, refl, sym, ap, ◌∙◌, inl, inr, some, List, [], ◌∷◌, ◌++◌, arith,
}
use substrate_aggregator.Ord.{Ord}
use substrate_aggregator.Storage.{Storage, write}
use substrate_aggregator.Types.{Pair, ProviderPair, ProviderPairOperation, pair_ord}
use substrate_aggregator.Pallet.State.{
  Amount, Origins, Event, best_prices_submitted, monitored_pairs_submitted, trade_performed,
  whitelisted_offchain_authority_added, BestPathChangesPayload, ok, State,
}
use substrate_aggregator.Pallet.Config.{Config}
use substrate_aggregator.Pallet.BestPaths
use substrate_aggregator.Pallet.BestPaths.Accepted.{whitelist-ocw_submit}
use substrate_aggregator.Pallet.BestPaths.Journal.{costs, prices_event-follows}
use substrate_aggregator.Pallet.MonitoredPairs
use substrate_aggregator.Pallet.MonitoredPairs.Journal.{pairs_event-follows}
use substrate_aggregator.Pallet.Trade
use substrate_aggregator.Pallet.Validate.{
  Call, ocw_submit_best_paths_changes, submit_monitored_pairs, add_whitelisted_offchain_authority,
  trade, Crypto,
}
use substrate_aggregator.Pallet.Chain.{
  dispatch, World, extrinsic, unsigned, next_block, Reach, here, next,
}

-- What the events tell: the price of each pair, the monitored pairs, and the whitelist.
pub record View (Account C A : Type 0) : Type 0 where
  pub prices : Storage (Pair C) A
  pub pairs : Storage (ProviderPair C) (Unit {0})
  pub whitelist : Storage Account (Unit {0})

abbrev pub view_of : {Account C A : Type 0} → State Account C A → View Account C A
view_of s = record {
  prices = costs s.best_paths;
  pairs = s.monitored_pairs;
  whitelist = s.whitelisted_offchain_authorities;
}

module _ {Account C A : Type 0} where
  same_view :
      {p p' : Storage (Pair C) A} {q q' : Storage (ProviderPair C) (Unit {0})}
      {w w' : Storage Account (Unit {0})}
      → p ≡ p'
      → q ≡ q'
      → w ≡ w'
      → ◌≡◌ {A = View Account C A}
          (record { prices = p; pairs = q; whitelist = w })
          (record { prices = p'; pairs = q'; whitelist = w' })
  same_view e f g = λ i. record { prices = e i; pairs = f i; whitelist = g i }

module _ {Account C A : Type 0} ⦃o : Ord C⦄ ⦃ka : Ord Account⦄ where
  -- A reader of the events follows them in order.
  abbrev pub read_event : Event Account C A → View Account C A → View Account C A
  read_event (best_prices_submitted es) v = record v {
    prices = BestPaths.Journal.follow es v.prices;
  }
  read_event (monitored_pairs_submitted es) v = record v {
    pairs = MonitoredPairs.Journal.follow es v.pairs;
  }
  read_event (trade_performed owner source target cost amount target_amount) v = v
  read_event (whitelisted_offchain_authority_added account) v = record v {
    whitelist = write account (some tt) v.whitelist;
  }

  abbrev pub read_events : List (Event Account C A) → View Account C A → View Account C A
  read_events [] v = v
  read_events (e ∷ es) v = read_events es (read_event e v)

  read_events-append :
      (es fs : List (Event Account C A)) (v : View Account C A)
      → read_events (es ++ fs) v ≡ read_events fs (read_events es v)
  read_events-append [] fs v = refl
  read_events-append (e ∷ es) fs v = read_events-append es fs (read_event e v)

  -- The events between two states tell what has changed.
  abbrev pub Told : State Account C A → State Account C A → Type 0
  Told s t =
      (es : List (Event Account C A)) × (t.events ≡ s.events ++ es)
      × (read_events es (view_of s) ≡ view_of t)

  Told-same : (s t : State Account C A) → t.events ≡ s.events → view_of s ≡ view_of t → Told s t
  Told-same s t e v = ([], e ∙ sym (append-nil s.events), v)

  Told-trans : (s t u : State Account C A) → Told s t → Told t u → Told s u
  Told-trans s t u (es, e, v) (fs, f, w) = (
    es ++ fs,
    f ∙ ap (λ x. x ++ fs) e ∙ append_assoc s.events es fs,
    read_events-append es fs (view_of s) ∙ ap (read_events fs) v ∙ w,
  )

  module _ ⦃a : Amount A⦄ (f : Origins Account) (origin : f.Origin) where
    pairs-ocw_submit :
        {Public : Type 0} (p : BestPathChangesPayload Public C A) (s : State Account C A)
        {t : State Account C A}
        → BestPaths.ocw_submit_best_paths_changes f origin p s ≡ ok t
        → t.monitored_pairs ≡ s.monitored_pairs
    unfolding BestPaths.ocw_submit_best_paths_changes
    pairs-ocw_submit p s e = ground arith

    ocw_submit-Told :
        {Public : Type 0} (p : BestPathChangesPayload Public C A) (s : State Account C A)
        {t : State Account C A}
        → BestPaths.ocw_submit_best_paths_changes f origin p s ≡ ok t
        → Told s t
    ocw_submit-Told p s {t} e =
        let pairs = sym (pairs-ocw_submit p s e) in
        let whitelist = sym (whitelist-ocw_submit f origin p s e) in
        elim (prices_event-follows f origin p s e) [
          | inl (events, paths) ↦
              Told-same s t events (same_view (ap costs (sym paths)) pairs whitelist)
          | inr (es, _, events, followed) ↦
              (best_prices_submitted es ∷ [], events, same_view followed pairs whitelist)
        ]

    paths-submit_monitored_pairs :
        (ops : List (ProviderPairOperation C)) (s : State Account C A) {t : State Account C A}
        → MonitoredPairs.submit_monitored_pairs f origin ops s ≡ ok t
        → (t.best_paths ≡ s.best_paths)
          × (t.whitelisted_offchain_authorities ≡ s.whitelisted_offchain_authorities)
    unfolding MonitoredPairs.submit_monitored_pairs
    paths-submit_monitored_pairs ops s e = ground arith

    submit_monitored_pairs-Told :
        (ops : List (ProviderPairOperation C)) (s : State Account C A) {t : State Account C A}
        → MonitoredPairs.submit_monitored_pairs f origin ops s ≡ ok t
        → Told s t
    submit_monitored_pairs-Told ops s {t} e =
        let (paths, whitelist) = paths-submit_monitored_pairs ops s e in
        let prices = ap costs (sym paths) in
        elim (pairs_event-follows f origin ops s e) [
          | inl (events, pairs) ↦
              Told-same s t events (same_view prices (sym pairs) (sym whitelist))
          | inr (es, _, events, _, _, followed) ↦
              (monitored_pairs_submitted es ∷ [], events, same_view prices followed (sym whitelist))
        ]

    trade-Told :
        (source target : C) (amount : A) (s : State Account C A) {t : State Account C A}
        → Trade.trade f origin source target amount s ≡ ok t
        → Told s t
    trade-Told source target amount s e =
        let (owner, path, _, _, same) = (Trade.trade_iff f origin source target amount s _).0 e in
        rw same (_ ∷ [], refl, refl)

    add_whitelisted-ok :
        (account : Account) (s : State Account C A) {t : State Account C A}
        → Trade.add_whitelisted_offchain_authority f origin account s ≡ ok t
        → t ≡ record s {
          events = s.events ++ whitelisted_offchain_authority_added account ∷ [];
          whitelisted_offchain_authorities =
              write account (some tt) s.whitelisted_offchain_authorities;
        }
    unfolding Trade.add_whitelisted_offchain_authority
    add_whitelisted-ok account s e = ground arith

    add_whitelisted-Told :
        (account : Account) (s : State Account C A) {t : State Account C A}
        → Trade.add_whitelisted_offchain_authority f origin account s ≡ ok t
        → Told s t
    add_whitelisted-Told account s e =
        rw (add_whitelisted-ok account s e)
          (whitelisted_offchain_authority_added account ∷ [], refl, refl)

    dispatch-Told :
        {Public Signature : Type 0} (c : Call Account Public Signature C A) (s : State Account C A)
        {t : State Account C A}
        → dispatch f origin c s ≡ ok t
        → Told s t
    unfolding dispatch
    dispatch-Told (ocw_submit_best_paths_changes p signature) s e = ocw_submit-Told p s e
    dispatch-Told (submit_monitored_pairs ops) s e = submit_monitored_pairs-Told ops s e
    dispatch-Told (add_whitelisted_offchain_authority account) s e =
        add_whitelisted-Told account s e
    dispatch-Told (trade source target amount) s e = trade-Told source target amount s e

-- Whoever starts from the prices, the monitored pairs and the whitelist of one world, and follows all
-- events that are deposited from there on, has those of every world that is reached from it.
pub events-Reach :
    {Account Public Signature C A : Type 0} ⦃a : Amount A⦄ ⦃o : Ord C⦄ ⦃ka : Ord Account⦄
    (f : Origins Account) (config : Config) (crypto : Crypto Account Public Signature C A)
    {w u : World Account C A} {n : ℕ}
    → Reach f config crypto w n u
    → (es : List (Event Account C A)) × (u.state.events ≡ w.state.events ++ es)
      × (read_events es (view_of w.state) ≡ view_of u.state)
events-Reach f config crypto {w} here = Told-same w.state w.state refl refl
events-Reach f config crypto {w} (next r (extrinsic {w = v} {s = t} origin c refused e)) =
    Told-trans w.state v.state t (events-Reach f config crypto r)
      (dispatch-Told f origin c v.state e)
events-Reach f config crypto {w} (next r (unsigned {w = v} {s = t} origin c allowed taken e)) =
    Told-trans w.state v.state t (events-Reach f config crypto r)
      (dispatch-Told f origin c v.state e)
events-Reach f config crypto (next r (next_block block later)) = events-Reach f config crypto r
