-- ===== src/Tests/Logs.antt =====
-- Submissions for currencies of one byte: that of 0xff has no text.
use substrate_aggregator.Prelude.{ℕ, ◌≡◌, ◌↔◌, refl, some, true, false, [], ◌∷◌, returns, panics}
use substrate_aggregator.Ord.{nat_ord}
use substrate_aggregator.TradeProvider.Utf8.{from_utf8, decode_from, next_byte, first_byte}
use substrate_aggregator.Types.Conversions.{Conversions, bytes_conversions}
use substrate_aggregator.Pallet.State.{BestPathChangesPayload, State, Result}
use substrate_aggregator.Pallet.BestPaths.{apply_changes, submitted, ocw_submit_best_paths_changes}
use substrate_aggregator.Pallet.BestPaths.Logged.{log_change, log_changes, submit_with_logs}
use substrate_aggregator.Pallet.BestPaths.Lines.{AllRead, SomeUnread}
use substrate_aggregator.Pallet.BestPaths.Readable.{submit_with_logs_iff}
use substrate_aggregator.Tests.Instances.{amount, origins, no_origin, path_of, start}

instance abbrev byte_conversions : Conversions ℕ
byte_conversions = record {
  to_str = λ byte. bytes_conversions.to_str (byte ∷ []);
  from_vecu8 = λ vec. elim vec [ [] ↦ 0 | byte ∷ bytes ↦ byte ];
}

abbrev payload : BestPathChangesPayload ℕ ℕ ℕ
payload = record {
  changes = (65, 66, some (path_of 50)) ∷ (65, 0xff, some (path_of 8)) ∷ [];
  nonce = 4;
  block_number = 10;
  public = 7;
}

stopped : submit_with_logs origins true no_origin payload start ≡ panics
unfolding submit_with_logs ocw_submit_best_paths_changes log_changes log_change from_utf8
    decode_from next_byte first_byte
stopped = refl

passed :
    submit_with_logs origins false no_origin payload start
    ≡ returns (Result.ok (submitted (apply_changes payload.changes start.best_paths []) start))
unfolding submit_with_logs ocw_submit_best_paths_changes
passed = refl

submit_with_logs_iff_example :
    (((s' : State ℕ ℕ ℕ) × (submit_with_logs origins true no_origin payload start
          ≡ returns (Result.ok s')))
      ↔ ((true ≡ true)
          × (4 ≡ payload.nonce)
          × (true ≡ true → AllRead payload.changes start.best_paths)))
    × ((submit_with_logs origins true no_origin payload start ≡ panics) ↔ (
        (true ≡ true)
        × (4 ≡ payload.nonce)
        × (true ≡ true)
        × SomeUnread payload.changes start.best_paths))
submit_with_logs_iff_example = submit_with_logs_iff origins true no_origin payload start
