-- ===== src/TradeProvider/Utf8.antt =====
-- `str::from_utf8` of the language, with which
-- pallets/aggregator/src/trade_provider/crypto_compare.rs reads addresses and responses: the code
-- points of bytes that are well-formed UTF-8, by the table of the Unicode standard.
use mathlib.Core.Option
use substrate_aggregator.Prelude.{
  ℕ, zero, suc, ◌+◌, ◌-◌, ◌*◌, ◌<◌, ◌≡◌, refl, Bool, ◌&&◌, Option, none, some, List, [], ◌∷◌, ◌++◌,
  ltb, leb, if◌then◌else◌, All, arith,
}

-- Between two code points, or before `suc more` bytes of one of which the next lies in a range.
pub data Position : Type 0 where
  start : Position
  within : (more least greatest code : ℕ) → Position

abbrev between : ℕ → ℕ → ℕ → Bool
between least greatest b = leb least b && leb b greatest

-- The first byte of a code point.
unfoldable pub first_byte : ℕ → Option (Position × List ℕ)
first_byte b =
    if ltb b 0x80
    then some (start, b ∷ [])
    else (if between 0xc2 0xdf b
        then some (within 0 0x80 0xbf (b - 0xc0), [])
        else (if between 0xe0 0xe0 b
            then some (within 1 0xa0 0xbf 0, [])
            else (if between 0xe1 0xec b
                then some (within 1 0x80 0xbf (b - 0xe0), [])
                else (if between 0xed 0xed b
                    then some (within 1 0x80 0x9f (b - 0xe0), [])
                    else (if between 0xee 0xef b
                        then some (within 1 0x80 0xbf (b - 0xe0), [])
                        else (if between 0xf0 0xf0 b
                            then some (within 2 0x90 0xbf 0, [])
                            else (if between 0xf1 0xf3 b
                                then some (within 2 0x80 0xbf (b - 0xf0), [])
                                else (if between 0xf4 0xf4 b
                                    then some (within 2 0x80 0x8f (b - 0xf0), [])
                                    else none))))))))

unfoldable pub next_byte : Position → ℕ → Option (Position × List ℕ)
next_byte start b = first_byte b
next_byte (within zero least greatest code) b =
    if between least greatest b then some (start, (code * 64 + (b - 0x80)) ∷ []) else none
next_byte (within (suc more) least greatest code) b =
    if between least greatest b
    then some (within more 0x80 0xbf (code * 64 + (b - 0x80)), [])
    else none

unfoldable pub decode_from : Position → List ℕ → Option (List ℕ)
decode_from start [] = some []
decode_from (within more least greatest code) [] = none
decode_from position (b ∷ bytes) = elim (next_byte position b) [
  | none ↦ none
  | some (position', codes) ↦ Option.map (λ rest. codes ++ rest) (decode_from position' bytes)
]

-- The code points of well-formed bytes.
unfoldable pub from_utf8 : List ℕ → Option (List ℕ)
from_utf8 = decode_from start

-- Bytes below 128 are their own code points.
pub from_utf8-ascii : (bytes : List ℕ) → All (λ b. b < 128) bytes → from_utf8 bytes ≡ some bytes
unfolding from_utf8 decode_from next_byte first_byte
from_utf8-ascii [] h = refl
from_utf8-ascii (b ∷ bytes) (h, hs) = ground (arith, from_utf8-ascii bytes hs)
