-- ===== src/Wire.antt =====
-- protocol.go and wire.go: the 20-byte packet header, the LLCP items of a payload, the reply
-- template, and the framing of packets on the connection.
pub mod Packets
pub mod Items
pub mod Walk
pub mod Replies
use i.Prelude.{
  ℕ, ◌+◌, ◌-◌, ◌*◌, ◌%◌, ◌^◌, Bytes, [], ◌∷◌, ◌++◌, ℤ, signed32, is_negative, Bool, not, ◌&&◌, ◌==◌,
  Option, none, some, length, take, drop, ltb, if◌then◌else◌,
}
use i.Errors.{
  Result, ok, err, ◌>>=◌, ◌>>◌, fail_if, header_too_short, llcp_too_short, invalid_llcp_length,
  llcp_exceeds_buffer, reply_too_short, unexpected_reply_id, read_packet_length,
  invalid_packet_length, packet_too_long, read_packet_body,
}
use i.Binary.{put_u16, put_u32, be, slice, uint16_at, uint32_at}

abbrev pub header_size : ℕ
header_size = 20

abbrev pub max_packet_length : ℕ
max_packet_length = 2 ^ 30

pub record Header : Type 0 where
  pub length : ℕ
  pub header_id : ℕ
  pub server_id : ℕ
  pub cs_instance : ℕ
  pub correlation_id : ℕ
  pub template_length : ℕ
  pub req_rep_id : ℕ

-- `Header.MarshalBinary`.
unfoldable pub marshal_binary : Header → Bytes
marshal_binary h =
    put_u32 h.length
    ++ put_u16 h.header_id
    ++ put_u16 h.server_id
    ++ put_u32 h.cs_instance
    ++ put_u32 h.correlation_id
    ++ put_u16 h.template_length
    ++ put_u16 h.req_rep_id

-- `buildHeader`: the header that starts every request.
unfoldable pub build_header : ℕ → ℕ → ℕ → ℕ → ℕ → Bytes
build_header length header_id server_id template_length req_rep_id =
    put_u32 length
    ++ put_u16 header_id
    ++ put_u16 server_id
    ++ put_u32 0
    ++ put_u32 0
    ++ put_u16 template_length
    ++ put_u16 req_rep_id

-- The fields from offset `at` on, behind the length.
header_fields : ℕ → ℕ → Bytes → Result Header
header_fields at length d = do
  header_id ← uint16_at at d
  server_id ← uint16_at (at + 2) d
  cs_instance ← uint32_at (at + 4) d
  correlation_id ← uint32_at (at + 8) d
  template_length ← uint16_at (at + 12) d
  req_rep_id ← uint16_at (at + 14) d
  ok (record {
    length = length;
    header_id = header_id;
    server_id = server_id;
    cs_instance = cs_instance;
    correlation_id = correlation_id;
    template_length = template_length;
    req_rep_id = req_rep_id;
  })

-- `ParseHeader`: data with the length prefix, or data from which the prefix was cut.
unfoldable pub parse_header : Bytes → Result Header
unfolding header_fields
parse_header d = do
  fail_if (ltb (length d) header_size) (header_too_short (length d))
  prefix ← uint32_at 0 d
  if prefix == length d % 2 ^ 32
      then header_fields 4 prefix d
      else header_fields 0 ((length d + 4) % 2 ^ 32) d

-- `AppendLLCP`: an item is its length, a code point and the payload.
unfoldable pub append_llcp : Bytes → ℕ → Bytes → Bytes
append_llcp dst code_point payload =
    dst ++ (put_u32 ((length payload + 6) % 2 ^ 32) ++ (put_u16 code_point ++ payload))

-- `ParseLLCP`: the code point, the payload and the rest of the first item.
unfoldable pub parse_llcp : Bytes → Result (ℕ × Bytes × Bytes)
parse_llcp d = do
  fail_if (ltb (length d) 6) (llcp_too_short (length d))
  n ← uint32_at 0 d
  fail_if (ltb n 6) (invalid_llcp_length n)
  fail_if (ltb (length d) n) (llcp_exceeds_buffer n (length d))
  code_point ← uint16_at 4 d
  payload ← slice 6 n d
  rest ← slice n (length d) d
  ok (code_point, payload, rest)

-- `io.ReadFull` for `n` bytes from what the connection still delivers.
abbrev read_full : ℕ → Bytes → Option (Bytes × Bytes)
read_full n s = if ltb (length s) n then none else some (take n s, drop n s)

-- `readPacket`: one packet, and what the connection delivers behind it.
unfoldable pub read_packet : Bytes → Result (Bytes × Bytes)
read_packet s = elim (read_full 4 s) [
  | none ↦ err read_packet_length
  | some (prefix, body) ↦
      let n = be prefix in
      if ltb n header_size
      then err (invalid_packet_length n)
      else if ltb max_packet_length n
      then err (packet_too_long n)
      else elim (read_full (n - 4) body) [
        | none ↦ err read_packet_body
        | some (packet, rest) ↦ ok (prefix ++ packet, rest)
      ]
]

-- `readReturnCode` and `readSimpleReply`.
unfoldable pub read_return_code : Bytes → Result ℤ
read_return_code packet = do
  fail_if (ltb (length packet) 24) (reply_too_short (length packet))
  code ← uint32_at 20 packet
  ok (signed32 code)

unfoldable pub read_simple_reply : Bytes → Result (ℤ × Bytes)
unfolding read_return_code
read_simple_reply packet = do
  rc ← read_return_code packet
  fail_if (ltb (length packet) 24) (reply_too_short (length packet))
  payload ← slice 24 (length packet) packet
  ok (rc, payload)

unfoldable pub read_simple_reply_for_id : Bytes → ℕ → Result (ℤ × Bytes)
unfolding parse_header read_simple_reply
read_simple_reply_for_id packet expected = do
  header ← parse_header packet
  fail_if (not (header.req_rep_id == expected)) (unexpected_reply_id header.req_rep_id)
  read_simple_reply packet

pub record ReplyEnvelope : Type 0 where
  pub header : Header
  pub ors_bitmap : ℕ
  pub compressed : ℕ
  pub return_ors_handle : ℕ
  pub return_data_function_id : ℕ
  pub request_data_function_id : ℕ
  pub rc_class : ℕ
  pub rc_code : ℤ

abbrev pub has_warning : ReplyEnvelope → Bool
has_warning e = not (e.rc_class == 0) && not (is_negative e.rc_code)

abbrev pub has_error : ReplyEnvelope → Bool
has_error e = not (e.rc_class == 0) && is_negative e.rc_code

-- `readReplyEnvelope`: the reply template of a database reply, and the payload behind it.
unfoldable pub read_reply_envelope : Bytes → Result (ReplyEnvelope × Bytes)
unfolding parse_header
read_reply_envelope packet = do
  fail_if (ltb (length packet) 40) (reply_too_short (length packet))
  header ← parse_header packet
  fail_if (not (header.req_rep_id == 0x2800)) (unexpected_reply_id header.req_rep_id)
  ors_bitmap ← uint32_at 20 packet
  compressed ← uint32_at 24 packet
  return_ors_handle ← uint16_at 28 packet
  return_data_function_id ← uint16_at 30 packet
  request_data_function_id ← uint16_at 32 packet
  rc_class ← uint16_at 34 packet
  rc_code ← uint32_at 36 packet
  payload ← slice 40 (length packet) packet
  ok (
    record {
      header = header;
      ors_bitmap = ors_bitmap;
      compressed = compressed;
      return_ors_handle = return_ors_handle;
      return_data_function_id = return_data_function_id;
      request_data_function_id = request_data_function_id;
      rc_class = rc_class;
      rc_code = signed32 rc_code;
    },
    payload,
  )
