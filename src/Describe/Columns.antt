-- ===== src/Describe/Columns.antt =====
-- parseExtendedColumnDescriptors: the attributes of the columns, and the sections with their names.
use i.Prelude.{ℕ, zero, suc, ◌-◌, Bytes, List, [], ◌∷◌, not, ◌==◌, ltb, length, if◌then◌else◌}
use i.Errors.{Result, ok, err, ◌>>=◌, eof, invalid_column_offset}
use i.Reader.{read_bytes, read_u8, read_u16, read_u32, skip}
use i.Describe.{ColumnMeta, DescribedSet, ensure_columns, has_bit}

-- A column with the offset and the length of its section, the offset from the payload's start.
pub record Section : Type 0 where
  pub column : ColumnMeta
  pub start : ℕ
  pub size : ℕ

abbrev pub with_attributes : (updateable searchable bitmap : ℕ) → ColumnMeta → ColumnMeta
with_attributes updateable searchable bitmap c = record c {
  updateable = updateable;
  searchable = searchable;
  is_identity = has_bit 15 bitmap;
  is_always_generated = not (has_bit 14 bitmap);
  is_part_of_any_index = has_bit 13 bitmap;
  is_lone_unique_index = has_bit 12 bitmap;
  is_part_of_unique_index = has_bit 11 bitmap;
  is_expression = has_bit 10 bitmap;
  is_primary_key = has_bit 9 bitmap;
  is_named = not (has_bit 8 bitmap);
  is_row_id = has_bit 7 bitmap;
  is_row_change_timestamp = has_bit 6 bitmap;
}

-- The first loop over the columns. An offset counts from the six bytes in front of the payload.
unfoldable pub read_sections : List ColumnMeta → Bytes → Result (List Section × Bytes)
read_sections [] r = ok ([], r)
read_sections (c ∷ cs) r = do
  (updateable, r) ← read_u8 r
  (searchable, r) ← read_u8 r
  (bitmap, r) ← read_u16 r
  (offset, r) ← read_u32 r
  (size, r) ← read_u32 r
  r ← skip 4 r
  (sections, r) ← (if ltb offset 6 then err (invalid_column_offset offset) else read_sections cs r)
  ok (
    record {
      column = with_attributes updateable searchable bitmap c;
      start = offset - 6;
      size = size;
    }
        ∷ sections,
    r,
  )

abbrev pub with_text : (code_point : ℕ) → Bytes → ColumnMeta → ColumnMeta
with_text code_point text c =
    if code_point == 0x3900
    then record c { base_column_name = text }
    else if code_point == 0x3901
    then record c { base_table_name = text }
    else if code_point == 0x3902
    then record c { label = text }
    else if code_point == 0x3904
    then record c { base_schema_name = text }
    else if code_point == 0x3905
    then record c { sql_from_table = text }
    else if code_point == 0x3906
    then record c { sql_from_schema = text }
    else c

-- `r.readBytes(total - taken)`, which fails on a negative count.
abbrev pub read_rest : (total taken : ℕ) → Bytes → Result (Bytes × Bytes)
read_rest total taken r = if ltb total taken then err eof else read_bytes (total - taken) r

-- `decode` is decodeTextByCCSID.
module _ (decode : Bytes → ℕ → Result Bytes) where
  -- The CCSID in front of a label, and how many bytes a descriptor has before its text.
  abbrev pub read_text_ccsid : (code_point : ℕ) → Bytes → Result ((ℕ × ℕ) × Bytes)
  read_text_ccsid code_point r =
      if code_point == 0x3902
      then (read_u16 r >>= λ p. ok ((if p.0 == 65535 then 37 else p.0, 8), p.1))
      else ok ((37, 6), r)

  -- A round of the loop over the descriptors of a section: the column, and what is left.
  abbrev pub read_descriptor : ColumnMeta → Bytes → Result (ColumnMeta × Bytes)
  read_descriptor c r = do
    (size, r) ← read_u32 r
    (code_point, r) ← read_u16 r
    ((ccsid, taken), r) ← read_text_ccsid code_point r
    (bytes, r) ← read_rest size taken r
    text ← decode bytes ccsid
    ok (with_text code_point text c, r)

  -- `for r.pos-sectionStart < sectionLength`, with the bytes of the section that are left. A descriptor
  -- takes six bytes at least, so that as many rounds as bytes are enough.
  unfoldable pub read_section : (rounds left : ℕ) → ColumnMeta → Bytes → Result (ColumnMeta × Bytes)
  read_section rounds zero c r = ok (c, r)
  read_section zero (suc left) c r = ok (c, r)
  read_section (suc rounds) (suc left) c r =
      if ltb (suc left) 6
      then (skip (suc left) r >>= λ r'. ok (c, r'))
      else (read_descriptor c r >>= λ p.
          read_section rounds (suc left - (length r - length p.1)) p.0 p.1)

  -- The second loop: a section may stand behind a gap. The position is what the payload lost so far.
  unfoldable pub read_texts :
      (payload_length : ℕ) → List Section → Bytes → Result (List ColumnMeta × Bytes)
  read_texts payload_length [] r = ok ([], r)
  read_texts payload_length (s ∷ ss) r = do
    let pos = payload_length - length r
    r ← (if ltb pos s.start then skip (s.start - pos) r else ok r)
    (c, r) ← read_section s.size s.size s.column r
    (cs, r) ← read_texts payload_length ss r
    ok (c ∷ cs, r)

  unfoldable pub parse_extended_column_descriptors : Bytes → DescribedSet → Result DescribedSet
  parse_extended_column_descriptors payload meta = do
    (count, r) ← read_u32 payload
    columns ← ensure_columns count meta.columns
    r ← skip 6 r
    (sections, r) ← read_sections columns r
    (described, r) ← read_texts (length payload) sections r
    ok record meta { columns = described }
