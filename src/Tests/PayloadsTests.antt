-- ===== src/Tests/PayloadsTests.antt =====
-- A reply with an SQLCA item and a LOB item.
use i.Prelude.{◌≡◌, refl, List, [], ◌∷◌, arith, pos}
use i.Errors.{ok}
use i.Wire.Walk.{Item, encode, scan}
use i.Wire.{parse_llcp}
use i.Binary.{uint32_at, uint16_at}
use i.Payloads.{parse_lob_data, parse_current_lob_length}
use i.Payloads.Found.{lob_item, parse_lob_data-encode}

abbrev sqlca : Item
sqlca = (0x3807, 9 ∷ [])

abbrev items : List Item
items = sqlca ∷ lob_item 37 (1 ∷ 2 ∷ 3 ∷ []) ∷ []

parse_lob_data-encode_example : parse_lob_data (encode items) ≡ ok (1 ∷ 2 ∷ 3 ∷ [])
parse_lob_data-encode_example =
    parse_lob_data-encode (sqlca ∷ []) 37 (1 ∷ 2 ∷ 3 ∷ []) [] refl (omega arith)
      ((omega arith, omega arith), ((omega arith, omega arith), tt))

lob_length :
    parse_current_lob_length (0 ∷ 0 ∷ 0 ∷ 12 ∷ 0x38 ∷ 0x10 ∷ 0 ∷ 4 ∷ 0 ∷ 0 ∷ 1 ∷ 2 ∷ [])
    ≡ ok (pos 258)
unfolding parse_current_lob_length scan parse_llcp uint32_at uint16_at
lob_length = refl
