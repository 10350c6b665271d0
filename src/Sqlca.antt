-- ===== src/Sqlca.antt =====
-- The SQLCA of a reply: parseSQLCAFromPayload of sql.go with the tokens of sqlerror_text.go, and the
-- warnings of a connection. A chain of warnings is a list.
use i.Prelude.{
  ℕ, ◌+◌, ◌-◌, Bytes, List, [], ◌∷◌, ◌++◌, ◌||◌, ◌==◌, ltb, ℤ, pos, signed32, is_negative, is_pos,
  Option, none, some, length, if◌then◌else◌,
}
use i.Errors.{Error, Result, ok, err, ◌>>=◌, sqlca_too_short}
use i.Binary.{slice, uint16_at, uint32_at}
use i.Text.{trim_space, is_empty}
use i.Wire.Walk.{Turn, next, done, scan}
use i.Decimal.{decode_packed_decimal_string}

-- The text of a warning, before fmt prints it.
pub data WarningText : Type 0 where
  returned_warning : (operation : Bytes) (rc_class : ℕ) (rc_code : ℤ) → WarningText
  sql_warning : (code : ℤ) (state : Bytes) → WarningText
  delete_descriptor_failed : Error → WarningText
  delete_descriptor_answered : (rc_class : ℕ) (rc_code : ℤ) → WarningText

pub record SqlWarning : Type 0 where
  pub code : ℤ
  pub state : Bytes
  pub message : WarningText

pub record SqlcaInfo : Type 0 where
  pub sql_code : ℤ
  pub sql_state : Bytes
  pub generated_key : Option ℤ
  pub update_count : ℤ
  pub result_sets_count : ℤ
  pub warning : Option SqlWarning
  pub tokens : Bytes

-- `&sqlcaInfo{}`.
abbrev pub no_sqlca : SqlcaInfo
no_sqlca = record {
  sql_code = pos 0;
  sql_state = [];
  generated_key = none;
  update_count = pos 0;
  result_sets_count = pos 0;
  warning = none;
  tokens = [];
}

-- A part that begins with a character.
abbrev pub begin_part : ℕ → List Bytes → List Bytes
begin_part b [] = (b ∷ []) ∷ []
begin_part b (part ∷ parts) = (b ∷ part) ∷ parts

unfoldable pub split_bytes : Bytes → ℕ → List Bytes
split_bytes [] sep = [] ∷ []
split_bytes (b ∷ bytes) sep =
    let parts = split_bytes bytes sep in if b == sep then [] ∷ parts else begin_part b parts

-- `strings.Join`.
abbrev pub join : List Bytes → Bytes → Bytes
join [] sep = []
join (part ∷ []) sep = part
join (part ∷ second ∷ parts) sep = part ++ (sep ++ join (second ∷ parts) sep)

-- A result whose error is dropped.
abbrev pub or_else {ℓ} : {A : Type ℓ} → Result A → A → A
or_else (ok a) b = a
or_else (err e) b = b

-- `decode` is decodeTextByCCSID, and `parse_int` is strconv.ParseInt to base 10.
module _ (decode : Bytes → ℕ → Result Bytes) (parse_int : Bytes → Option ℤ) where
  -- The text of a part, nothing where it is blank or cannot be decoded.
  abbrev pub token_text : Bytes → Bytes
  token_text part = trim_space (or_else (decode part 37) [])

  abbrev pub token_texts : List Bytes → List Bytes
  token_texts [] = []
  token_texts (part ∷ parts) =
      let rest = token_texts parts in
      if is_empty part || is_empty (token_text part) then rest else token_text part ∷ rest

  abbrev pub tokens_of : Bytes → ℕ → Result Bytes
  tokens_of sqlca announced =
      let limited = (if ltb 70 announced then 70 else announced) in
      let used = (if ltb (length sqlca) (18 + limited) then length sqlca - 18 else limited) in
      (slice 18 (18 + used) sqlca >>= λ raw.
      ok (join (token_texts (split_bytes raw 0xFF)) (b' ' ∷ [])))

  unfoldable pub sqlerrmc_tokens : Bytes → Result Bytes
  sqlerrmc_tokens sqlca =
      if ltb (length sqlca) 18
      then ok []
      else (uint16_at 16 sqlca >>= λ announced.
          if announced == 0 then ok [] else tokens_of sqlca announced)

  -- A warning stands for a positive SQLCODE.
  abbrev pub warning_of : ℤ → Bytes → Option SqlWarning
  warning_of code state =
      if is_negative code || is_pos 0 code
      then none
      else some record { code = code; state = state; message = sql_warning code state }

  abbrev pub key_of : Result Bytes → Option ℤ
  key_of (err e) = none
  key_of (ok key) = parse_int (trim_space key)

  abbrev pub sqlca_info : Bytes → Result SqlcaInfo
  sqlca_info sqlca = do
    code ← uint32_at 12 sqlca
    updated ← uint32_at 104 sqlca
    sets ← uint32_at 100 sqlca
    raw_state ← slice 131 136 sqlca
    raw_key ← slice 72 88 sqlca
    tokens ← sqlerrmc_tokens sqlca
    let state = or_else (decode raw_state 37 >>= λ text. ok (trim_space text)) []
    ok record {
      sql_code = signed32 code;
      sql_state = state;
      generated_key = key_of (decode_packed_decimal_string raw_key (pos 30) 0);
      update_count = signed32 updated;
      result_sets_count = signed32 sets;
      warning = warning_of (signed32 code) state;
      tokens = tokens;
    }

  abbrev pub sqlca_found : Bytes → Result SqlcaInfo
  sqlca_found [] = ok no_sqlca
  sqlca_found (b ∷ bs) =
      if ltb (length (b ∷ bs)) 136
      then err (sqlca_too_short (length (b ∷ bs)))
      else sqlca_info (b ∷ bs)

  abbrev pub sqlca_payload_round : ℕ → Bytes → Unit {0} → Turn (Unit {0}) (Result Bytes)
  sqlca_payload_round code_point payload s =
      if code_point == 0x3807 then done (ok payload) else next s

  unfoldable pub parse_sqlca_from_payload : Bytes → Result SqlcaInfo
  parse_sqlca_from_payload payload =
      scan 1 (λ e. err e) (λ s. ok []) sqlca_payload_round payload tt >>= sqlca_found
