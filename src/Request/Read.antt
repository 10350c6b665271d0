-- ===== src/Request/Read.antt =====
-- The readers of wire.go and protocol.go take a built request back off the connection.
use i.Prelude.{ℕ, ◌+◌, ◌%◌, ◌^◌, ◌≤◌, ◌<◌, ◌≡◌, ap, ◌∙◌, Bytes, [], ◌++◌, length, take, arith}
use i.Errors.{ok}
use i.Binary.{be, be-put_u32}
use i.Wire.{build_header, Header, marshal_binary, parse_header, read_packet, max_packet_length}
use i.Wire.Walk.{encode}
use i.Wire.Packets.{parse_header-marshal_binary, read_packet_complete}
use i.Request.Attributes.{append_request_template, Codec}
use i.Request.Calls.{
  Call, create_rpb, prepare_and_describe, open_and_describe, fetch, close_cursor,
  close_result_set_cursor, execute_immediate, execute_call_no_params, create_package, delete_rpb,
  test_connection, commit, rollback, auto_commit_level, change_rpb_query_timeout, send_results_set,
  retrieve_lob_data, free_lob, set_descriptor, remove_descriptor, execute_values, open_values,
  write_lob, execute_rows, build, function_of, handle_of, descriptor_of,
}
use i.Request.Framed.{FramedFor}
use i.Request.Built.{build-Framed}

function_of-word : (c : Call) → function_of c < 2 ^ 16
function_of-word (create_rpb _ _ _) = omega arith
function_of-word (prepare_and_describe _ _ _ _ _) = omega arith
function_of-word (open_and_describe _ _) = omega arith
function_of-word (fetch _ _ _ _ _) = omega arith
function_of-word (close_cursor _ _) = omega arith
function_of-word (close_result_set_cursor _ _ _) = omega arith
function_of-word (execute_immediate _ _ _ _) = omega arith
function_of-word (execute_call_no_params _ _) = omega arith
function_of-word (create_package _ _) = omega arith
function_of-word (delete_rpb _) = omega arith
function_of-word test_connection = omega arith
function_of-word commit = omega arith
function_of-word rollback = omega arith
function_of-word (auto_commit_level _ _) = omega arith
function_of-word (change_rpb_query_timeout _ _) = omega arith
function_of-word (send_results_set _ _) = omega arith
function_of-word (retrieve_lob_data _ _) = omega arith
function_of-word (free_lob _) = omega arith
function_of-word (set_descriptor _ _ _ _) = omega arith
function_of-word (remove_descriptor _ _) = omega arith
function_of-word (execute_values _ _ _ _ _ _) = omega arith
function_of-word (open_values _ _ _ _ _ _ _ _ _) = omega arith
function_of-word (write_lob _) = omega arith
function_of-word (execute_rows _ _ _ _ _ _) = omega arith

-- The header that the host reads off a request.
abbrev pub request_header : ℕ → Bytes → Header
request_header function request = record {
  length = length request;
  header_id = 0;
  server_id = 0xE004;
  cs_instance = 0;
  correlation_id = 0;
  template_length = 20;
  req_rep_id = function;
}

module _ (function handle descriptor : ℕ) {request : Bytes}
    (f : FramedFor function handle descriptor request) where
  body_of : Bytes
  body_of = append_request_template [] f.bitmap handle descriptor (length f.items) ++ encode f.items

  -- The request as a header that the protocol marshals in front of the template and the items.
  marshalled :
      length request < 2 ^ 32
      → request ≡ marshal_binary (request_header function request) ++ body_of
  unfolding marshal_binary build_header body_of
  marshalled k =
      let same : length request % 2 ^ 32 ≡ length request = omega arith in
      f.frame ∙ λ i. build_header (same i) 0 0xE004 20 function ++ body_of

  length_of : length request ≡ 20 + length body_of
  unfolding build_header body_of
  length_of = ap length f.frame ∙ omega arith

  parse_header-Framed :
      function < 2 ^ 16
      → length request < 2 ^ 32
      → parse_header request ≡ ok (request_header function request)
  parse_header-Framed p k =
      ap parse_header (marshalled k)
      ∙ parse_header-marshal_binary (request_header function request) body_of
          record {
            length = k;
            header_id = omega arith;
            server_id = omega arith;
            cs_instance = omega arith;
            correlation_id = omega arith;
            template_length = omega arith;
            req_rep_id = p;
          }
          length_of

  read_packet-Framed :
      (rest : Bytes)
      → length request ≤ max_packet_length
      → read_packet (request ++ rest) ≡ ok (request, rest)
  unfolding build_header
  read_packet-Framed rest k = read_packet_complete request rest (omega (arith, length_of)) k (
      ap (λ d. be (take 4 d)) f.frame
      ∙ be-put_u32 (length request % 2 ^ 32) (omega arith)
      ∙ omega arith)

-- The reader of packets takes a request of at most 2 ^ 30 bytes off the connection whole, whatever is sent
-- after it, and its header is parsed to the call's function code and the request's length.
pub build-read :
    (codec : Codec) (c : Call) {request : Bytes} (rest : Bytes)
    → build codec c ≡ ok request
    → length request ≤ max_packet_length
    → (read_packet (request ++ rest) ≡ ok (request, rest))
      × (parse_header request ≡ ok (request_header (function_of c) request))
build-read codec c {request} rest e k =
    let f = build-Framed codec c e in
    (
      read_packet-Framed (function_of c) (handle_of c) (descriptor_of c) f rest k,
      parse_header-Framed (function_of c) (handle_of c) (descriptor_of c) f (function_of-word c)
          (omega arith),
    )
