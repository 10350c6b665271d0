-- ===== src/Errors.antt =====
-- errors.go and the errors that the codecs return, as values. A Go pair (value, error) is a
-- `Result`. `panic` is no Go error: it stands for an index or slice out of range.
use i.Prelude.{ℕ, Bytes, Bool, true, false, Option, none, some, ℤ}

-- SQLError: the code and state of the SQLCA, its tokens, and the message text that the server sent.
pub record SqlError : Type 0 where
  pub code : ℤ
  pub state : Bytes
  pub message : Bytes
  pub message_id : Bytes
  pub message_text : Bytes
  pub second_level_text : Bytes
  pub tokens : Bytes

pub data Error : Type 0 where
  panic : Error
  eof : Error
  cannot_encode : Error
  header_too_short : ℕ → Error
  llcp_too_short : ℕ → Error
  invalid_llcp_length : ℕ → Error
  llcp_exceeds_buffer : ℕ → ℕ → Error
  reply_too_short : ℕ → Error
  unexpected_reply_id : ℕ → Error
  read_packet_length : Error
  invalid_packet_length : ℕ → Error
  packet_too_long : ℕ → Error
  read_packet_body : Error
  invalid_packed_precision : Error
  invalid_packed_digit : ℕ → Error
  invalid_packed_sign : ℕ → Error
  invalid_zoned_digit : ℕ → Error
  invalid_zoned_sign : ℕ → Error
  field_out_of_range : ℕ → Error
  unexpected_character : ℕ → ℕ → Error
  row_offset_out_of_range unsupported_scrollable_cursor : Error
  column_count_mismatch : ℕ → ℕ → Error
  parameter_format_too_short block_row_has_different_shape : ℕ → Error
  block_has_no_rows block_has_too_many_columns statement_returned_result_sets : Error
  absolute_row_must_be_positive : Error
  unexpected_lob_length lob_length_exceeds : ℕ → Error
  invalid_date invalid_julian_date : Error
  invalid_column_offset invalid_variable_field_length : ℕ → Error
  invalid_time hour_out_of_range expected_am_or_pm time_out_of_range : Error
  connection_closed bad_conn tx_done transaction_active max_statements_exceeded : Error
  named_parameter_missing : Bytes → Error
  unterminated_sql not_an_insert : Error
  protocol_error : (operation : Bytes) (rc_class : ℕ) (rc_code : ℤ) → Error
  sql_error : SqlError → Error
  sqlca_too_short : ℕ → Error
  parameter_count_mismatch : ℕ → ℕ → Error
  named_parameter_not_provided : Bytes → Error
  prepared_statement_binding_unsupported unsupported_isolation_level : Error
  cannot_execute_query no_result_set : Error
  batch_row : ℕ → Error → Error
  batch_column : ℕ → ℕ → Error → Error
  out_not_supported : ℕ → Error
  empty_option option_out_of_range unknown_option : Error

pub data Result {ℓ} (A : Type ℓ) : Type ℓ where
  ok : A → Result A
  err : Error → Result A

infixl 5 ◌>>=◌ ◌>>◌
-- An error returns at once.
abbrev pub ◌>>=◌ {ℓ ℓ'} :
    {X : Type ℓ} {Y : Type ℓ'} (run : Result X) (next : X → Result Y) → Result Y
err why >>= next = err why
ok value >>= next = next value

abbrev pub ◌>>◌ {ℓ} : {Y : Type ℓ} (check : Result (Unit {0})) (next : Result Y) → Result Y
err why >> next = err why
ok done >> next = next

-- A value that a codec may refuse.
abbrev pub encoded {ℓ} : {A : Type ℓ} → Option A → Result A
encoded none = err cannot_encode
encoded (some a) = ok a

-- `if test { return e }`.
abbrev pub fail_if : Bool → Error → Result (Unit {0})
fail_if true e = err e
fail_if false e = ok tt

-- A call that works on a state of type S, and what follows it unless it fails.
abbrev pub Ran : Type 0 → Type 0 → Type 0
Ran S A = Result A × S

abbrev pub and_then : {S X Y : Type 0} → Ran S X → (X → S → Ran S Y) → Ran S Y
and_then (err why, w) next = (err why, w)
and_then (ok value, w) next = next value w
