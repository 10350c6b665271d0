-- ===== src/Payloads.antt =====
-- The readers of reply payloads that look for items by code point: payloadHasSQLCA of reply_error.go,
-- the LOB replies of sql.go, and the message text of sqlerror_text.go.
pub mod Found
use i.Prelude.{
  ℕ, ◌+◌, ◌-◌, ◌^◌, Bytes, [], ◌∷◌, Bool, true, false, ◌==◌, length, take, drop, ltb, min,
  if◌then◌else◌, ℤ, pos, negsuc,
}
use i.Errors.{Error, Result, ok, err, ◌>>=◌, ◌>>◌, unexpected_lob_length, lob_length_exceeds}
use i.Binary.{be, slice, uint16_at, uint32_at}
use i.Text.{trim_space}
use i.Wire.Walk.{Turn, next, done, scan}

abbrev pub sqlca_round : ℕ → Bytes → Unit {0} → Turn (Unit {0}) Bool
sqlca_round code_point payload s = if code_point == 0x3807 then done true else next s

unfoldable pub payload_has_sqlca : Bytes → Bool
payload_has_sqlca payload = scan 1 (λ e. false) (λ s. false) sqlca_round payload tt

-- The length of a LOB by the size of its item: a word of 4 bytes, or one of 8 bytes that fits an int64.
abbrev pub lob_length_of : Bytes → Result ℤ
lob_length_of payload =
    if length payload == 6
    then uint32_at 2 payload >>= (λ n. ok (pos n))
    else if length payload == 10
    then (do
      bytes ← slice 2 10 payload
      if ltb (2 ^ 63 - 1) (be bytes)
          then err (lob_length_exceeds (be bytes))
          else ok (pos (be bytes)))
    else err (unexpected_lob_length (length payload))

abbrev pub lob_length_round : ℕ → Bytes → Unit {0} → Turn (Unit {0}) (Result ℤ)
lob_length_round code_point payload s =
    if code_point == 0x3810 then done (lob_length_of payload) else next s

-- No item gives -1.
unfoldable pub parse_current_lob_length : Bytes → Result ℤ
parse_current_lob_length payload =
    scan 1 (λ e. err e) (λ s. ok (negsuc 0)) lob_length_round payload tt

abbrev pub lob_data_of : Bytes → Result Bytes
lob_data_of payload = if ltb (length payload) 6 then ok [] else (do
  n ← uint32_at 2 payload
  let size = (if ltb (length payload - 6) n then length payload - 6 else n)
  slice 6 (6 + size) payload)

abbrev pub lob_data_round : ℕ → Bytes → Unit {0} → Turn (Unit {0}) (Result Bytes)
lob_data_round code_point payload s =
    if code_point == 0x380F then done (lob_data_of payload) else next s

unfoldable pub parse_lob_data : Bytes → Result Bytes
parse_lob_data payload = scan 1 (λ e. err e) (λ s. ok []) lob_data_round payload tt

pub record SqlMessageText : Type 0 where
  pub message_id : Bytes
  pub first_level_text : Bytes
  pub second_level_text : Bytes

-- `decode` is decodeTextByCCSID, which stands on the tables of the CCSIDs.
module _ (decode : Bytes → ℕ → Result Bytes) where
  abbrev pub decode_message_code_point : Bytes → ℕ → Result Bytes
  decode_message_code_point payload text_offset =
      if ltb (length payload) text_offset then ok [] else (do
        ccsid ← uint16_at 0 payload
        tail ← slice text_offset (length payload) payload
        text ← decode tail ccsid
        ok (trim_space text))

  abbrev pub stored :
      (Bytes → SqlMessageText) → Result Bytes → Turn SqlMessageText (Result SqlMessageText)
  stored put (err e) = done (err e)
  stored put (ok text) = next (put text)

  abbrev pub message_round :
      ℕ → Bytes → SqlMessageText → Turn SqlMessageText (Result SqlMessageText)
  message_round code_point payload m =
      if code_point == 0x3801
      then stored
          (λ text. record {
            message_id = text;
            first_level_text = m.first_level_text;
            second_level_text = m.second_level_text;
          })
          (decode_message_code_point payload 2)
      else if code_point == 0x3802
      then stored
          (λ text. record {
            message_id = m.message_id;
            first_level_text = text;
            second_level_text = m.second_level_text;
          })
          (decode_message_code_point payload 4)
      else if code_point == 0x3803
      then stored
          (λ text. record {
            message_id = m.message_id;
            first_level_text = m.first_level_text;
            second_level_text = text;
          })
          (decode_message_code_point payload 4)
      else next m

  unfoldable pub parse_sql_message_text : Bytes → Result SqlMessageText
  parse_sql_message_text payload =
      scan 1 (λ e. err e) (λ m. ok m) message_round payload
        record { message_id = []; first_level_text = []; second_level_text = [] }
