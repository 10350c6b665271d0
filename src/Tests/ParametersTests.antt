-- ===== src/Tests/ParametersTests.antt =====
-- Formats and payloads of two bound values, and the blocks of rows with them.
use i.Prelude.{
  ℕ, ◌+◌, ◌≡◌, ◌≢◌, refl, Bytes, List, [], ◌∷◌, ◌++◌, true, false, pos, negsuc, Option, none, some,
  length, replicate, arith,
}
use i.Errors.{Result, ok, err, panic}
use i.Text.{codes}
use i.Wire.{append_llcp}
use i.Wire.Walk.{encode}
use i.Blocks.Layout.{block_of}
use i.Parameters.{
  ParameterMarkerField, ParameterMarkerFormat, ParameterBinding, sum_binding_lengths,
  uses_original_format,
}
use i.Parameters.Parse.{parse_parameter_marker_format_from_payload}
use i.Parameters.Payload.{
  exceeds_words, parameter_marker_payload_layout, build_parameter_marker_format_payload,
}
use i.Parameters.Formats.{Fits}
use i.Parameters.Described.{format_in, parse-build}
use i.Parameters.Total.{parse_parameter_marker_format_from_payload-ne-panic}
use i.Batches.{Row, same_binding_shape, block_size, exec_blocks, build_block_parameter_marker_data}
use i.Batches.Partition.{IsBlock, Cut, send, exec_blocks-Cut}
use i.Batches.Carried.{read_in, code_point_in, all_nulls, build_block-read}
use i.Batches.{put_all_values}
use i.Batches.Blockable.{is_blockable_statement, after_first, before_last}
use i.Text.{trim_space, to_upper, has_prefix}

abbrev integer_field : ParameterMarkerField
integer_field = record {
  name = [];
  sql_type = pos 496;
  width = pos 4;
  scale = pos 0;
  precision = pos 9;
  ccsid = 0;
  parameter_type = 0xF0;
  lob_locator = negsuc 0;
  lob_max_size = negsuc 0;
}

abbrev text_field : ParameterMarkerField
text_field = record integer_field { sql_type = pos 449; precision = negsuc 4; ccsid = 37 }

abbrev pub bound_row : ℕ → Row
bound_row v =
    record {
      field = integer_field;
      raw = 0 ∷ 0 ∷ 0 ∷ v ∷ [];
      is_null = false;
      has_out_dest = false;
      lob_write = none;
    }
    ∷ record {
      field = text_field;
      raw = 0 ∷ 1 ∷ 0xC1 ∷ [];
      is_null = true;
      has_out_dest = false;
      lob_write = none;
    }
    ∷ []

abbrev pub original_format : Option ParameterMarkerFormat
original_format = some record { code_point = 0x3808; record_size = 7; fields = [] }

integer-Fits : Fits integer_field
integer-Fits = record {
  sql_type = omega arith;
  scale = omega arith;
  precision = omega arith;
  ccsid = omega arith;
  parameter_type = omega arith;
}

text-Fits : Fits text_field
text-Fits = record {
  sql_type = omega arith;
  scale = omega arith;
  precision = omega arith;
  ccsid = omega arith;
  parameter_type = omega arith;
}

row_small : sum_binding_lengths (bound_row 5) ≡ 7
unfolding sum_binding_lengths
row_small = refl

abbrev no_text : Bytes → ℕ → Option Bytes
no_text text ccsid = none

parse-build_example :
    parse_parameter_marker_format_from_payload no_text (
      append_llcp []
        (build_parameter_marker_format_payload original_format (bound_row 5)).1
        (build_parameter_marker_format_payload original_format (bound_row 5)).0
      ++ encode ((0x3807, 9 ∷ []) ∷ []))
    ≡ ok (
        format_in no_text
          (bound_row 5)
          (integer-Fits, (text-Fits, tt))
          (parameter_marker_payload_layout original_format (bound_row 5)))
parse-build_example =
    parse-build no_text (bound_row 5) (integer-Fits, (text-Fits, tt)) original_format
      ((0x3807, 9 ∷ []) ∷ []) (omega arith) (omega (arith, row_small))
      ((omega arith, omega arith), tt)

original_layout : parameter_marker_payload_layout original_format (bound_row 5) ≡ false
unfolding parameter_marker_payload_layout exceeds_words uses_original_format
original_layout = refl

parse_parameter_marker_format_from_payload-ne-panic_example :
    parse_parameter_marker_format_from_payload no_text (append_llcp [] 0x380D (replicate 16 0xFF))
    ≢ err panic
parse_parameter_marker_format_from_payload-ne-panic_example =
    parse_parameter_marker_format_from_payload-ne-panic no_text
      (append_llcp [] 0x380D (replicate 16 0xFF))

-- Two rows of one shape.
two-IsBlock : IsBlock (bound_row 5) (bound_row 6 ∷ [])
unfolding same_binding_shape sum_binding_lengths
two-IsBlock = record { shapes = (refl, tt); rows = omega arith; bytes = ground arith }

build_block-read_example :
    (payload : Bytes) × (build_block_parameter_marker_data original_format
        (bound_row 5 ∷ bound_row 6 ∷ [])
      ≡ ok (payload, code_point_in (parameter_marker_payload_layout original_format (bound_row 5))))
    × (read_in (parameter_marker_payload_layout original_format (bound_row 5)) payload
        ≡ ok (
            block_of 2
              (sum_binding_lengths (bound_row 5))
              (all_nulls (bound_row 5 ∷ bound_row 6 ∷ []))
              (put_all_values (bound_row 5 ∷ bound_row 6 ∷ []))))
build_block-read_example =
    build_block-read original_format (bound_row 5) (bound_row 6 ∷ []) two-IsBlock (omega arith)
      (omega (arith, row_small))

-- A host that counts the rows of a block.
abbrev count_rows : List Row → ℕ → Result ℕ × ℕ
count_rows rows w = (ok (length rows), w + 1)

abbrev three_rows : List Row
three_rows = bound_row 5 ∷ bound_row 6 ∷ (integer_binding ∷ []) ∷ []
  where
    integer_binding : ParameterBinding
    integer_binding = record {
      field = integer_field;
      raw = 0 ∷ 0 ∷ 0 ∷ 1 ∷ [];
      is_null = false;
      has_out_dest = false;
      lob_write = none;
    }

two_blocks : exec_blocks count_rows 3 0 three_rows 0 ≡ ((3, none), 2)
unfolding exec_blocks block_size same_binding_shape sum_binding_lengths
two_blocks = refl

exec_blocks-Cut_example :
    (blocks : List (List Row)) × Cut three_rows blocks
    × ((total : ℕ) (w : ℕ)
        → exec_blocks count_rows 3 total three_rows w ≡ send count_rows total blocks w)
exec_blocks-Cut_example = exec_blocks-Cut count_rows 3 three_rows (omega arith)

blockable : is_blockable_statement (codes " insert into t (a, b) values (?, ?) ") ≡ true
unfolding is_blockable_statement after_first before_last trim_space to_upper has_prefix
blockable = refl

not_blockable : is_blockable_statement (codes "insert into t values (?, a)") ≡ false
unfolding is_blockable_statement after_first before_last trim_space to_upper has_prefix
not_blockable = refl
