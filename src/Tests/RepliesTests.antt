-- ===== src/Tests/RepliesTests.antt =====
-- A fetch whose reply brings two rows behind an SQLCA, and the warnings of a reply.
use i.Prelude.{◌≡◌, refl, Bytes, List, [], ◌∷◌, true, false, ℤ, pos, none, some, arith}
use i.Errors.{Result, ok, err, eof}
use i.Wire.{ReplyEnvelope}
use i.Wire.Walk.{Item, encode}
use i.Request.Attributes.{append_name_attribute}
use i.Request.Build as Build
use i.Blocks.{FetchBlock}
use i.Blocks.Layout.{block_of}
use i.Blocks.Table.{Row, flags_of, bytes_of, put_rows_data}
use i.Text.{codes}
use i.Sqlca.{returned_warning, split_bytes}
use i.Replies.{
  Conn, Network, fetch_rows, check_reply, record_warning, clone_sql_warning_chain,
  is_end_of_data_reply,
}
use i.Replies.Fetched.{Marked, Warned, fetch_rows-put_rows_data}

abbrev table : List Row
table = (false ∷ true ∷ [], 10 ∷ 0 ∷ []) ∷ (false ∷ false ∷ [], 20 ∷ 21 ∷ []) ∷ []

abbrev first_item : Item
first_item = (0x3807, 9 ∷ [])

abbrev pub last_reply : ℤ → ReplyEnvelope
last_reply rc_code = record {
  header = record {
    length = 43;
    header_id = 0;
    server_id = 0xE004;
    cs_instance = 0;
    correlation_id = 7;
    template_length = 20;
    req_rep_id = 0x2800;
  };
  ors_bitmap = 0x80000000;
  compressed = 0;
  return_ors_handle = 1;
  return_data_function_id = 1;
  request_data_function_id = 0x180B;
  rc_class = 2;
  rc_code = rc_code;
}

abbrev pub network : Network (Unit {0})
network = record {
  do_request = λ request n. (err eof, n);
  do_statement_request = λ request handle n. (
    ok (last_reply (pos 701), encode (first_item ∷ (0x380E, put_rows_data 7 0 2 2 table []) ∷ [])),
    n,
  );
  send_request_no_reply = λ request n. (ok tt, n);
  cancel_interrupted = λ why handle n. n;
  release_statement_handle = λ handle n. n;
  is_cached_statement_name = λ name n. false;
  codec = record { encode_ebcdic37 = λ name. some name; encode_text = λ text ccsid. some text };
  decode = λ text ccsid. ok text;
  parse_int = λ text. none;
  second_level = false;
}

abbrev pub idle : Conn (Unit {0})
idle = record { net = tt; warnings = [] }

abbrev sent_request : Result Bytes → Bytes
sent_request (ok request) = request
sent_request (err e) = []

abbrev fetch_request : Bytes
fetch_request =
    sent_request (Build.build_fetch_request_for_statement network.codec 1 (b'C' ∷ []) 100 0 (pos 0))

request_built :
    Build.build_fetch_request_for_statement network.codec 1 (b'C' ∷ []) 100 0 (pos 0)
    ≡ ok fetch_request
unfolding Build.build_fetch_request_for_statement append_name_attribute
request_built = refl

fetch_rows-put_rows_data_example :
    (b : FetchBlock) × (((fetch_rows network 1 (b'C' ∷ []) 100 0 (pos 0) idle).0 ≡ ok b)
      × Marked (last_reply (pos 701)) (block_of 2 2 (flags_of table) (bytes_of table)) b)
    × (((fetch_rows network 1 (b'C' ∷ []) 100 0 (pos 0) idle).1.net ≡ tt)
        × Warned network
            (last_reply (pos 701))
            idle
            (fetch_rows network 1 (b'C' ∷ []) 100 0 (pos 0) idle).1)
fetch_rows-put_rows_data_example =
    fetch_rows-put_rows_data network 1 (b'C' ∷ []) 100 0 (pos 0) idle fetch_request
      (last_reply (pos 701)) tt (first_item ∷ []) [] 7 0 2 2 table [] request_built refl refl refl
      ((omega arith, omega arith), ((omega arith, omega arith), tt)) (omega arith, omega arith)
      (omega arith, omega arith, omega arith) ((refl, refl), ((refl, refl), tt)) (omega arith)

-- The last block is no warning, another positive code is, and a negative one without an SQLCA is an error.
warned : check_reply network 0 (codes "close cursor") (last_reply (pos 7)) [] idle ≡ (
  ok tt,
  record {
    net = tt;
    warnings =
        record {
          code = pos 7;
          state = [];
          message = returned_warning (codes "close cursor") 2 (pos 7);
        }
        ∷ [];
  },
)
unfolding check_reply record_warning clone_sql_warning_chain is_end_of_data_reply
warned = refl

split : split_bytes (1 ∷ 2 ∷ 0xFF ∷ 0xFF ∷ 3 ∷ []) 0xFF ≡ (1 ∷ 2 ∷ []) ∷ [] ∷ (3 ∷ []) ∷ []
unfolding split_bytes
split = refl
