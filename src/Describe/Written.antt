-- ===== src/Describe/Written.antt =====
-- A data format as a server writes it, read back into columns.
use i.Prelude.{
  ℕ, zero, suc, ◌+◌, ◌-◌, ◌<◌, ◌^◌, ◌≡◌, refl, ap, ◌∙◌, Bytes, List, [], ◌∷◌, ◌++◌, true, ◌==◌,
  le→ltb_false, length, ◌≤◌, All, if◌then◌else◌, arith,
}
use i.Errors.{Result, ok, err, ◌>>=◌, invalid_variable_field_length}
use i.Binary.{put_u16, put_u32}
use i.Reader.{read_bytes, read_u8, read_u16-then, read_u32-then, read_bytes-append, skip}
use i.Describe.{
  ColumnMeta, DescribedSet, no_column, no_columns, ensure_columns, has_bit, sum_widths,
}
use i.Describe.Format.{
  read_fixed, place, columns_of, read_variable, read_variables, read_names,
  parse_super_extended_data_format, no_set, with_name,
}

-- A column as the server describes it: the numbers of its fixed part, and its name in the name's CCSID, with
-- the text that the name stands for.
pub record ServerColumn : Type 0 where
  pub column_type : ℕ
  pub size : ℕ
  pub scale : ℕ
  pub precision : ℕ
  pub ccsid : ℕ
  pub bitmap : ℕ
  pub lob_size : ℕ
  pub raw_name : Bytes
  pub name_ccsid : ℕ
  pub text : Bytes

-- Numbers that their fields hold, and a name that is decoded.
pub record Fits (decode : Bytes → ℕ → Result Bytes) (w : ServerColumn) : Type 0 where
  pub column_type : w.column_type < 2 ^ 16
  pub size : w.size < 2 ^ 32
  pub scale : w.scale < 2 ^ 16
  pub precision : w.precision < 2 ^ 16
  pub ccsid : w.ccsid < 2 ^ 16
  pub lob_size : w.lob_size < 2 ^ 32
  pub name_ccsid : w.name_ccsid < 2 ^ 16
  pub short : length w.raw_name + 8 < 2 ^ 32
  pub decodes : decode w.raw_name w.name_ccsid ≡ ok w.text

abbrev pub put_fixed : ServerColumn → Bytes → Bytes
put_fixed w rest =
    put_u16 48
    ++ (put_u16 w.column_type
        ++ (put_u32 w.size
            ++ (put_u16 w.scale
                ++ (put_u16 w.precision
                    ++ (put_u16 w.ccsid
                        ++ (0
                            ∷ (put_u16 0
                                ++ (put_u32 0
                                    ++ (w.bitmap
                                        ∷ (put_u32 0
                                            ++ (put_u32 w.lob_size
                                                ++ (put_u16 0
                                                    ++ (put_u32 0
                                                        ++ (put_u32 (length w.raw_name + 8)
                                                            ++ (put_u32 0
                                                            ++ (put_u32 0 ++ rest))))))))))))))))

abbrev pub put_fixed_parts : List ServerColumn → Bytes → Bytes
put_fixed_parts [] rest = rest
put_fixed_parts (w ∷ ws) rest = put_fixed w (put_fixed_parts ws rest)

abbrev pub put_name : ServerColumn → Bytes → Bytes
put_name w rest =
    put_u32 (length w.raw_name + 8)
    ++ (put_u16 0x3840 ++ (put_u16 w.name_ccsid ++ (w.raw_name ++ rest)))

abbrev pub put_names : List ServerColumn → Bytes → Bytes
put_names [] rest = rest
put_names (w ∷ ws) rest = put_name w (put_names ws rest)

abbrev fixed_of : ServerColumn → ColumnMeta
fixed_of w = record no_column {
  sql_type = w.column_type;
  width = w.size;
  scale = w.scale;
  precision = w.precision;
  ccsid = w.ccsid;
  lob_max_size = w.lob_size;
  is_named = has_bit 7 w.bitmap;
}

abbrev fixed_parts : List ServerColumn → List (ColumnMeta × ℕ)
fixed_parts [] = []
fixed_parts (w ∷ ws) = (fixed_of w, length w.raw_name + 8) ∷ fixed_parts ws

-- The columns behind an offset.
abbrev pub columns_from : ℕ → List ServerColumn → List ColumnMeta
columns_from offset [] = []
columns_from offset (w ∷ ws) =
    record no_column {
      name = w.text;
      name_ccsid = w.name_ccsid;
      sql_type = w.column_type;
      width = w.size;
      scale = w.scale;
      precision = w.precision;
      ccsid = w.ccsid;
      offset = offset;
      lob_max_size = w.lob_size;
      is_named = has_bit 7 w.bitmap;
    }
    ∷ columns_from (offset + w.size) ws

abbrev pub sum_sizes : List ServerColumn → ℕ
sum_sizes [] = 0
sum_sizes (w ∷ ws) = w.size + sum_sizes ws

sum_widths-fixed_parts :
    (ws : List ServerColumn) → sum_widths (columns_of (fixed_parts ws)) ≡ sum_sizes ws
unfolding sum_widths
sum_widths-fixed_parts [] = refl
sum_widths-fixed_parts (w ∷ ws) = ap (λ n. w.size + n) (sum_widths-fixed_parts ws)

-- What a format has besides its columns.
pub record Format : Type 0 where
  pub token : ℕ
  pub record_size : ℕ
  pub date_format : ℕ
  pub time_format : ℕ
  pub date_separator : ℕ
  pub time_separator : ℕ

abbrev pub put_format : Format → List ServerColumn → Bytes
put_format f ws =
    put_u32 f.token
    ++ (put_u32 (length ws)
        ++ (f.date_format
            ∷ f.time_format
            ∷ f.date_separator
            ∷ f.time_separator
            ∷ (put_u32 f.record_size ++ put_fixed_parts ws (put_names ws []))))

read_u8-then :
    {A : Type 0} (b : ℕ) (r : Bytes) (go : ℕ × Bytes → Result A)
    → (read_u8 (b ∷ r) >>= go) ≡ go (b, r)
unfolding read_u8
read_u8-then b r go = refl

module _ (decode : Bytes → ℕ → Result Bytes) where
  read_fixed-put_fixed_parts :
      (ws : List ServerColumn) (rest : Bytes)
      → All (Fits decode) ws
      → read_fixed (no_columns (length ws)) (put_fixed_parts ws rest) ≡ ok (fixed_parts ws, rest)
  unfolding read_fixed
  read_fixed-put_fixed_parts [] rest h = refl
  read_fixed-put_fixed_parts (w ∷ ws) rest (f, fs) =
      read_u16-then 48 _ _ (omega arith)
      ∙ read_u16-then w.column_type _ _ f.column_type
      ∙ read_u32-then w.size _ _ f.size
      ∙ read_u16-then w.scale _ _ f.scale
      ∙ read_u16-then w.precision _ _ f.precision
      ∙ read_u16-then w.ccsid _ _ f.ccsid
      ∙ read_u8-then 0 _ _
      ∙ read_u16-then 0 _ _ (omega arith)
      ∙ read_u32-then 0 _ _ (omega arith)
      ∙ read_u8-then w.bitmap _ _
      ∙ read_u32-then 0 _ _ (omega arith)
      ∙ read_u32-then w.lob_size _ _ f.lob_size
      ∙ read_u16-then 0 _ _ (omega arith)
      ∙ read_u32-then 0 _ _ (omega arith)
      ∙ read_u32-then (length w.raw_name + 8) _ _ f.short
      ∙ read_u32-then 0 _ _ (omega arith)
      ∙ read_u32-then 0 _ _ (omega arith)
      ∙ ap (λ read. read >>= prepend) (read_fixed-put_fixed_parts ws rest fs)
    where
      prepend : List (ColumnMeta × ℕ) × Bytes → Result (List (ColumnMeta × ℕ) × Bytes)
      prepend (later, r) = ok ((fixed_of w, length w.raw_name + 8) ∷ later, r)

  read_variable-put_name :
      (w : ServerColumn) (c : ColumnMeta) (rest : Bytes)
      → Fits decode w
      → read_variable decode c (put_name w rest)
        ≡ ok (length w.raw_name + 8, record c { name = w.text; name_ccsid = w.name_ccsid }, rest)
  read_variable-put_name w c rest f =
      read_u32-then (length w.raw_name + 8) _ _ f.short
      ∙ read_u16-then 0x3840 _ _ (omega arith)
      ∙ read_u16-then w.name_ccsid _ _ f.name_ccsid
      ∙ ap
          (λ t.
            (if t then err (invalid_variable_field_length size) else read_bytes (size - 8) left)
            >>= decoded)
          (le→ltb_false _ _ (omega arith))
      ∙ ap (λ k. read_bytes k left >>= decoded) behind_header
      ∙ ap (λ read. read >>= decoded) (read_bytes-append w.raw_name rest)
      ∙ ap (λ t. t >>= λ text. ok (size, with_name 0x3840 w.name_ccsid text c, rest)) f.decodes
    where
      size : ℕ
      size = length w.raw_name + 8

      left : Bytes
      left = w.raw_name ++ rest

      behind_header : size - 8 ≡ length w.raw_name
      behind_header = omega arith

      decoded : Bytes × Bytes → Result (ℕ × ColumnMeta × Bytes)
      decoded (bytes, r) =
          decode bytes w.name_ccsid >>= λ text. ok (size, with_name 0x3840 w.name_ccsid text c, r)

  -- A variable part that one field fills.
  read_variables_once :
      (n : ℕ) (c : ColumnMeta) (r : Bytes) {p : ColumnMeta × Bytes}
      → 8 ≤ n
      → read_variable decode c r ≡ ok (n, p.0, p.1)
      → read_variables decode n n c r ≡ ok p
  unfolding read_variables
  read_variables_once zero c r long read = absurd (omega arith)
  read_variables_once (suc m) c r {p} long read =
      ap
        (λ t.
          if t
          then (skip (suc m) r >>= λ r'. ok (c, r'))
          else (read_variable decode c r >>= λ p. read_variables decode m (suc m - p.0) p.1 p.2))
        (le→ltb_false _ _ long)
      ∙ ap (λ a. a >>= λ p. read_variables decode m (suc m - p.0) p.1 p.2) read
      ∙ ap (λ k. read_variables decode m k p.0 p.1) none_left
    where
      none_left : suc m - suc m ≡ 0
      none_left = omega arith

  read_names-put_names :
      (o : ℕ) (ws : List ServerColumn) (rest : Bytes)
      → All (Fits decode) ws
      → read_names decode (place o (fixed_parts ws)) (put_names ws rest)
        ≡ ok (columns_from o ws, rest)
  unfolding read_names place
  read_names-put_names o [] rest h = refl
  read_names-put_names o (w ∷ ws) rest (f, fs) =
      ap (λ read. read >>= later)
        (read_variables_once (length w.raw_name + 8) placed (put_names (w ∷ ws) rest) (omega arith)
          (read_variable-put_name w placed (put_names ws rest) f))
      ∙ ap (λ read. read >>= prepend) (read_names-put_names (o + w.size) ws rest fs)
    where
      placed : ColumnMeta
      placed = record (fixed_of w) { offset = o }

      prepend : List ColumnMeta × Bytes → Result (List ColumnMeta × Bytes)
      prepend (cs, r) = ok (record placed { name = w.text; name_ccsid = w.name_ccsid } ∷ cs, r)

      later : ColumnMeta × Bytes → Result (List ColumnMeta × Bytes)
      later (c, r) =
          read_names decode (place (o + w.size) (fixed_parts ws)) r >>= λ p. ok (c ∷ p.0, p.1)

  -- A format of columns whose numbers fit their fields and whose names are decoded, for a description that
  -- has no columns yet: its reader answers the columns in order with their names and with the offsets that
  -- the sizes in front sum up to; a record size of 0 is replaced by the sum of the sizes.
  pub parse_super_extended_data_format-put_format :
      (f : Format) (ws : List ServerColumn)
      → f.token < 2 ^ 32
      → f.record_size < 2 ^ 32
      → length ws < 2 ^ 32
      → All (Fits decode) ws
      → parse_super_extended_data_format decode (put_format f ws) (no_set decode)
        ≡ ok record {
          columns = columns_from 0 ws;
          row_size = if f.record_size == 0 then sum_sizes ws else f.record_size;
          date_format = f.date_format;
          time_format = f.time_format;
          date_separator = f.date_separator;
          time_separator = f.time_separator;
          has_data_format = true;
        }
  unfolding parse_super_extended_data_format ensure_columns
  parse_super_extended_data_format-put_format f ws token size few fits =
      read_u32-then f.token _ _ token
      ∙ read_u32-then (length ws) _ _ few
      ∙ read_u8-then f.date_format _ _
      ∙ read_u8-then f.time_format _ _
      ∙ read_u8-then f.date_separator _ _
      ∙ read_u8-then f.time_separator _ _
      ∙ read_u32-then f.record_size _ _ size
      ∙ ap (λ read. read >>= described) (read_fixed-put_fixed_parts ws (put_names ws []) fits)
      ∙ ap (λ read. read >>= answer (sum_widths (columns_of (fixed_parts ws))))
          (read_names-put_names 0 ws [] fits)
      ∙ ap (λ n. answer n (columns_from 0 ws, [])) (sum_widths-fixed_parts ws)
    where
      answer : ℕ → List ColumnMeta × Bytes → Result DescribedSet
      answer n (cs, r) = ok record {
        columns = cs;
        row_size = if f.record_size == 0 then n else f.record_size;
        date_format = f.date_format;
        time_format = f.time_format;
        date_separator = f.date_separator;
        time_separator = f.time_separator;
        has_data_format = true;
      }

      described : List (ColumnMeta × ℕ) × Bytes → Result DescribedSet
      described (fixed, r) =
          read_names decode (place 0 fixed) r >>= answer (sum_widths (columns_of fixed))
