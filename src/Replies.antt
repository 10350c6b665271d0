-- ===== src/Replies.antt =====
-- What a connection makes of the reply to a request: checkReply of reply_error.go with newSQLError of
-- sqlerror_text.go and recordWarning of driver.go, and the calls of sql.go on a cursor that stand on
-- them. A request is sent and its reply read by doRequest, a parameter.
pub mod Fetched
use i.Prelude.{
  ℕ, zero, suc, ◌+◌, ◌^◌, Bytes, List, [], ◌∷◌, ◌++◌, Bool, true, false, not, ◌&&◌, ◌||◌, ◌==◌, ℤ,
  pos, negsuc, is_pos, Option, none, some, if◌then◌else◌,
}
use i.Errors.{Error, Result, ok, err, ◌>>=◌, Ran, and_then, SqlError, protocol_error, sql_error}
use i.Text.{trim_space, is_empty, codes, bytes_eq}
use i.Wire.{ReplyEnvelope, has_warning, has_error}
use i.Request.Attributes.{Codec}
use i.Request.Build as Build
use i.Payloads.{SqlMessageText, payload_has_sqlca, parse_sql_message_text}
use i.Blocks.{FetchBlock, parse_fetch_payload}
use i.Sqlca.{SqlWarning, SqlcaInfo, WarningText, returned_warning, parse_sqlca_from_payload}

-- A connection: its warnings, and the state of the network and of the maps of Names.
pub record Conn (N : Type 0) : Type 0 where
  pub net : N
  pub warnings : List SqlWarning

-- cloneSQLWarningChain: a chain of copies.
unfoldable pub clone_sql_warning_chain : List SqlWarning → List SqlWarning
clone_sql_warning_chain [] = []
clone_sql_warning_chain (w ∷ ws) =
    record { code = w.code; state = w.state; message = w.message } ∷ clone_sql_warning_chain ws

-- The copies go to the tail of the chain that is there.
unfoldable pub record_warning : {N : Type 0} → List SqlWarning → Conn N → Conn N
record_warning warning c = record c { warnings = c.warnings ++ clone_sql_warning_chain warning }

-- What a reply is to: the names that the driver gives to its operations.
abbrev pub fetch_operation : Bytes
fetch_operation = codes "fetch"

unfoldable pub is_end_of_data_reply : Bytes → ReplyEnvelope → Bool
is_end_of_data_reply operation e =
    if e.rc_class == 2 && is_pos 700 e.rc_code
    then true
    else if not (bytes_eq operation fetch_operation)
    then false
    else if e.rc_class == 1 && is_pos 100 e.rc_code
    then true
    else e.rc_class == 2 && is_pos 701 e.rc_code

-- The calls on the network, and the codecs. `second_level` is the option `errors=full`.
pub record Network (N : Type 0) : Type 0 where
  pub do_request : Bytes → N → Ran N (ReplyEnvelope × Bytes)
  pub do_statement_request : Bytes → ℕ → N → Ran N (ReplyEnvelope × Bytes)
  pub send_request_no_reply : Bytes → N → Ran N (Unit {0})
  pub cancel_interrupted : Error → ℕ → N → N
  pub release_statement_handle : ℕ → N → N
  pub is_cached_statement_name : Bytes → N → Bool
  pub codec : Codec
  pub decode : Bytes → ℕ → Result Bytes
  pub parse_int : Bytes → Option ℤ
  pub second_level : Bool

unfoldable pub sql_message_bitmap : Bool → ℕ
sql_message_bitmap second_level =
    0x80000000 + 0x02000000 + 0x40000000 + 0x20000000 + (if second_level then 0x10000000 else 0)

-- The error of an SQLCA without the text that the server has for it.
abbrev pub sqlca_error : SqlcaInfo → SqlError
sqlca_error info = record {
  code = info.sql_code;
  state = info.sql_state;
  message =
      if is_empty info.sql_state
      then codes "SQL execution failed"
      else codes "SQL execution failed (" ++ (info.sql_state ++ codes ")");
  message_id = [];
  message_text = [];
  second_level_text = [];
  tokens = info.tokens;
}

abbrev pub apply_sql_message_text : SqlError → SqlMessageText → SqlError
apply_sql_message_text e text =
    let told = record e {
      message_id = text.message_id;
      second_level_text = text.second_level_text;
    } in
    if is_empty text.first_level_text
    then told
    else record told { message_text = text.first_level_text; message = text.first_level_text }

-- The message text that was read, if it was.
abbrev pub told : SqlError → Result SqlMessageText → SqlError
told e (err why) = e
told e (ok text) = apply_sql_message_text e text

-- What codes 700 and 701 of class 2 say of the cursor.
abbrev pub with_codes : ReplyEnvelope → FetchBlock → FetchBlock
with_codes e b = record b {
  cursor_closed = b.cursor_closed || (e.rc_class == 2 && is_pos 700 e.rc_code);
  end_of_data = b.end_of_data || (e.rc_class == 2 && is_pos 701 e.rc_code);
}

module _ {N : Type 0} (net : Network N) where
  -- A call on the network.
  abbrev pub on_network : {A : Type 0} → (N → Ran N A) → Conn N → Ran (Conn N) A
  on_network call c = let run = call c.net in (run.0, record c { net = run.1 })

  -- The message text is asked for after the SQLCA; a failure leaves the error of the SQLCA.
  abbrev pub with_text : SqlError → Ran (Conn N) (ReplyEnvelope × Bytes) → SqlError × Conn N
  with_text e (err why, c) = (e, c)
  with_text e (ok (envelope, payload), c) = (told e (parse_sql_message_text net.decode payload), c)

  unfoldable pub new_sql_error : ℕ → SqlcaInfo → Conn N → SqlError × Conn N
  new_sql_error statement_handle info c = with_text (sqlca_error info) (
      on_network
        (net.do_request (
          Build.build_send_results_set_request statement_handle
            (sql_message_bitmap net.second_level)))
        c)

  abbrev pub sqlca_of_reply :
      ℕ → Bytes → ReplyEnvelope → Result SqlcaInfo → Conn N → Ran (Conn N) (Unit {0})
  sqlca_of_reply statement_handle operation e (err why) c =
      (err (protocol_error operation e.rc_class e.rc_code), c)
  sqlca_of_reply statement_handle operation e (ok info) c =
      let failed = new_sql_error statement_handle (record info { sql_code = e.rc_code }) c in
      (err (sql_error failed.0), failed.1)

  unfoldable pub check_reply : ℕ → Bytes → ReplyEnvelope → Bytes → Conn N → Ran (Conn N) (Unit {0})
  check_reply statement_handle operation e payload c =
      if has_warning e
      then (
        ok tt,
        if is_end_of_data_reply operation e
            then c
            else record_warning
                (record {
                  code = e.rc_code;
                  state = [];
                  message = returned_warning operation e.rc_class e.rc_code;
                }
                  ∷ [])
                c,
      )
      else if not (has_error e)
      then (ok tt, c)
      else if not (payload_has_sqlca payload)
      then (err (protocol_error operation e.rc_class e.rc_code), c)
      else sqlca_of_reply statement_handle operation e
          (parse_sqlca_from_payload net.decode net.parse_int payload) c

  abbrev pub fetched : ReplyEnvelope → Bytes → Unit {0} → Conn N → Ran (Conn N) FetchBlock
  fetched e payload checked c = (parse_fetch_payload payload >>= λ b. ok (with_codes e b), c)

  abbrev pub fetch_reply : ℕ → Ran (Conn N) (ReplyEnvelope × Bytes) → Ran (Conn N) FetchBlock
  fetch_reply statement_handle (err why, c) =
      (err why, record c { net = net.cancel_interrupted why statement_handle c.net })
  fetch_reply statement_handle (ok (e, payload), c) =
      and_then (check_reply statement_handle fetch_operation e payload c) (fetched e payload)

  unfoldable pub fetch_rows : ℕ → Bytes → ℕ → ℕ → ℤ → Conn N → Ran (Conn N) FetchBlock
  fetch_rows statement_handle cursor_name fetch_buffer_size option relative c =
      and_then
        (
          Build.build_fetch_request_for_statement net.codec statement_handle cursor_name
              fetch_buffer_size option relative,
          c,
        )
        (λ request c.
          fetch_reply statement_handle
            (on_network (net.do_statement_request request statement_handle) c))

  -- A request whose reply is only checked.
  abbrev pub checked : Bytes → Bytes → Conn N → Ran (Conn N) (Unit {0})
  checked operation request c =
      and_then (on_network (net.do_request request) c)
        (λ reply c. check_reply 0 operation reply.0 reply.1 c)

  unfoldable pub close_cursor : Bytes → ℕ → Conn N → Ran (Conn N) (Unit {0})
  close_cursor cursor_name reuse c =
      if is_empty (trim_space cursor_name)
      then (ok tt, c)
      else and_then (Build.build_close_cursor_request net.codec cursor_name reuse, c)
          (checked (codes "close cursor"))

  unfoldable pub close_result_set_cursor_no_reply : ℕ → Bytes → ℕ → Conn N → Ran (Conn N) (Unit {0})
  close_result_set_cursor_no_reply statement_handle cursor_name reuse c =
      and_then
        (
          Build.build_close_result_set_cursor_request net.codec statement_handle cursor_name reuse,
          c,
        )
        (λ request c. on_network (net.send_request_no_reply request) c)

  -- Deferred: the id is free again whatever the server answered.
  abbrev pub freed : ℕ → Ran (Conn N) (Unit {0}) → Ran (Conn N) (Unit {0})
  freed statement_handle (answer, c) =
      (answer, record c { net = net.release_statement_handle statement_handle c.net })

  unfoldable pub close_prepared_statement : Bytes → ℕ → Conn N → Ran (Conn N) (Unit {0})
  close_prepared_statement statement_name statement_handle c =
      if is_empty (trim_space statement_name)
      then (ok tt, c)
      else freed statement_handle (
          if net.is_cached_statement_name statement_name c.net
          then (ok tt, c)
          else checked (codes "delete RPB") (Build.build_delete_rpb_request statement_handle) c)
