-- ===== src/Tests/RowsTests.antt =====
-- Result blocks and rows on concrete replies.
use i.Prelude.{
  ℕ, zero, suc, ◌≡◌, refl, Bytes, List, [], ◌∷◌, Bool, true, false, pos, Option, none, some, length,
  get_elem?, arith,
}
use i.Errors.{ok, err, eof, panic, Ran, and_then}
use i.Blocks.{FetchBlock, no_block, decode_row, decode_columns, parse_result_data_payload}
use i.Blocks.Cells.{decode_cells, parse_result_data_payload-decode_row}
use i.Blocks.Table.{Row, put_rows_data}
use i.Rows.{Connection, QueryRows, ResultSetMeta, has_next_result_set, close}
use i.Text.{trim_space, trim_left, trim_right}
use i.Binary.{slice}
use i.Rows.Reading.{Delivered, State, next_row}
use i.Rows.Rounds.{next_row-Returns}
use i.Rows.Delivery.{drain, Decodes, last, more}
use i.Rows.Complete.{drain-Feed}
use i.Rows.Release.{IsInert, close-IsInert, next_result_set-strands}
use i.Rows.Sets.{next_result_set}

-- A column is its place in the row, and its value the byte there.
abbrev byte_at : ℕ → Bytes → List FetchBlock → Ran (List FetchBlock) ℕ
byte_at at row w = elim (get_elem? row at) [ none ↦ (err panic, w) | some b ↦ (ok b, w) ]

abbrev two_rows : List Row
two_rows = (false ∷ true ∷ [], 10 ∷ 0 ∷ []) ∷ (false ∷ false ∷ [], 20 ∷ 21 ∷ []) ∷ []

parse_result_data_payload-decode_row_example :
    and_then
      (parse_result_data_payload (put_rows_data 7 0 2 2 two_rows (9 ∷ [])), [])
      (λ block w. decode_row byte_at (0 ∷ 1 ∷ []) block 1 w)
    ≡ decode_cells byte_at (0 ∷ 1 ∷ []) (false ∷ false ∷ []) (20 ∷ 21 ∷ []) []
parse_result_data_payload-decode_row_example =
    parse_result_data_payload-decode_row byte_at (0 ∷ 1 ∷ []) 7 0 2
      ((false ∷ true ∷ [], 10 ∷ 0 ∷ []) ∷ []) [] (false ∷ false ∷ []) (20 ∷ 21 ∷ []) (9 ∷ [])
      (omega arith, omega arith) (omega arith, omega arith, omega arith)
      ((refl, refl), ((refl, refl), tt)) (omega arith) []

second_row :
    decode_cells byte_at (0 ∷ 1 ∷ []) (true ∷ false ∷ []) (20 ∷ 21 ∷ []) []
    ≡ (ok (none ∷ some 21 ∷ []), [])
unfolding decode_cells
second_row = refl

-- A server that sends the blocks of a script.
abbrev served : List FetchBlock → Ran (List FetchBlock) FetchBlock
served [] = (ok no_block, [])
served (b ∷ bs) = (ok b, bs)

abbrev Script : Type 0
Script = List FetchBlock

abbrev server : Connection Script ℕ (Unit {0}) ℕ (Unit {0})
server = record {
  fetch_rows = λ handle cursor size option relative w. served w;
  decode = λ meta stored_proc column row w. byte_at column row w;
  close_cursor = λ cursor reuse w. (ok tt, w);
  close_result_set_cursor_no_reply = λ handle cursor reuse w. (ok tt, w);
  close_prepared_statement = λ name handle w. (ok tt, w);
  open_and_describe = λ handle name cursor w. (err eof, w);
  record_warning = λ warning w. w;
  release_default_cursor = λ handle w. w;
  run_release = λ w. w;
  column_length = λ column. 1;
  zero_format = tt;
}

abbrev one_byte : ResultSetMeta ℕ (Unit {0})
one_byte = record { columns = 0 ∷ []; row_size = 1; format = tt }

abbrev opened_rows : (sets : ℕ) → QueryRows ℕ (Unit {0})
opened_rows sets = record {
  connected = true;
  meta = some one_byte;
  statement_handle = 1;
  statement_name = [];
  cursor_name = b'C' ∷ [];
  default_cursor = true;
  fetch_buffer_size = 100;
  result_set_count = pos sets;
  result_set_index = 1;
  block = none;
  row_index = 0;
  current_row = pos 0;
  current_result_set_done = false;
  stored_proc_result = false;
  scrollable = false;
  own_statement = false;
  has_release = true;
  closed = false;
  server_closed = false;
  end_of_data = false;
}

abbrev sent_block : Bytes → Bool → FetchBlock
sent_block bytes end_of_data = record {
  row_count = length bytes;
  column_count = 1;
  indicator_size = 0;
  row_size = 1;
  nulls = none;
  bytes = bytes;
  cursor_closed = false;
  end_of_data = end_of_data;
}

abbrev script : Script
script = sent_block (5 ∷ 6 ∷ []) false ∷ sent_block (7 ∷ []) true ∷ []

next_row-Returns_example :
    (answer : Delivered server) × ((fuel : ℕ)
      → next_row server (suc (suc fuel)) 1 (opened_rows 1) script ≡ some answer)
next_row-Returns_example = next_row-Returns server 1 (opened_rows 1) script

abbrev byte_value : FetchBlock → ℕ → List (Option ℕ)
byte_value b row = get_elem? b.bytes row ∷ []

close-IsInert_example : IsInert server (close server (opened_rows 1) script).1.0
close-IsInert_example = close-IsInert server (opened_rows 1) script

another : has_next_result_set (opened_rows 2) ≡ true
unfolding has_next_result_set
another = refl

-- The server answers no description, and the rows with a callback count as closed.
stranded :
    next_result_set server (opened_rows 2) []
    ≡ (err eof, (record (opened_rows 2) { closed = true }, []))
unfolding next_result_set has_next_result_set trim_space trim_left trim_right
stranded = refl

next_result_set-strands_example :
    IsInert server (record (opened_rows 2) { closed = true })
    × ((opened_rows 2).has_release ≡ (opened_rows 2).has_release)
next_result_set-strands_example = next_result_set-strands server (opened_rows 2) [] another stranded

first_block : Decodes server one_byte byte_value false (sent_block (5 ∷ 6 ∷ []) false)
unfolding decode_row decode_columns slice
first_block zero w h = refl
first_block (suc zero) w h = refl
first_block (suc (suc row)) w h = absurd (omega (arith, h))

second_block : Decodes server one_byte byte_value false (sent_block (7 ∷ []) true)
unfolding decode_row decode_columns slice
second_block zero w h = refl
second_block (suc row) w h = absurd (omega (arith, h))

drain-Feed_example :
    (s : State server) × ((drain server 4 1 (opened_rows 1, script)
        ≡ some ((some 5 ∷ []) ∷ (some 6 ∷ []) ∷ (some 7 ∷ []) ∷ [], (eof, s)))
      × (next_row server 2 1 s.0 s.1 ≡ some (err eof, s)))
drain-Feed_example =
    drain-Feed server one_byte byte_value refl (opened_rows 1) script script
      (refl, refl, refl, refl) refl refl refl
      (more refl (omega arith) first_block refl (last refl (omega arith) second_block refl))
