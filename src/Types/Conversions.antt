-- ===== src/Types/Conversions.antt =====
-- pallets/aggregator/src/types.rs: the texts of currencies, which log lines print.
use substrate_aggregator.Prelude.{List, ℕ, Option, none, some, Outcome, returns, panics}
use substrate_aggregator.TradeProvider.Utf8.{from_utf8}

pub record Conversions (C : Type 0) : Type 0 where
  pub to_str : C → Outcome (List ℕ)
  pub from_vecu8 : List ℕ → C

-- `unwrap` of an optional text.
abbrev pub text_of : Option (List ℕ) → Outcome (List ℕ)
text_of none = panics
text_of (some text) = returns text

-- The bytes of a currency, and the code points of its text.
instance abbrev pub bytes_conversions : Conversions (List ℕ)
bytes_conversions = record { to_str = λ bytes. text_of (from_utf8 bytes); from_vecu8 = λ vec. vec }
