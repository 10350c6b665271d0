-- ===== src/Tests/WireTests.antt =====
-- wire.go and protocol.go at concrete packets.
use i.Prelude.{◌≤◌, ◌≡◌, refl, Bytes, [], ◌∷◌, ◌++◌, length, take, arith, pos}
use i.Errors.{ok}
use i.Binary.{be, uint16_at, uint32_at}
use i.Wire.{
  Header, ReplyEnvelope, marshal_binary, append_llcp, parse_llcp, read_packet, max_packet_length,
  read_reply_envelope,
}
use i.Wire.Packets.{read_packet_sound}
use i.Wire.Items.{parse_llcp-append_llcp}
use i.Wire.Replies.{template, read_reply_envelope-template}

-- The header of a database reply with a payload of three bytes.
abbrev reply_header : Header
reply_header = record {
  length = 43;
  header_id = 0;
  server_id = 0xE004;
  cs_instance = 0;
  correlation_id = 7;
  template_length = 20;
  req_rep_id = 0x2800;
}

abbrev reply : ReplyEnvelope
reply = record {
  header = reply_header;
  ors_bitmap = 0x80000000;
  compressed = 0;
  return_ors_handle = 1;
  return_data_function_id = 1;
  request_data_function_id = 0x180B;
  rc_class = 2;
  rc_code = pos 701;
}

abbrev three : Bytes
three = 1 ∷ 2 ∷ 3 ∷ []

abbrev reply_packet : Bytes
reply_packet =
    0 ∷ 0 ∷ 0 ∷ 24 ∷ 0 ∷ 0 ∷ 0xE0 ∷ 4 ∷ 0 ∷ 0 ∷ 0 ∷ 0 ∷ 0 ∷ 0 ∷ 0 ∷ 0 ∷ 0 ∷ 20 ∷ 0xF0 ∷ 3 ∷ 0 ∷ 0
    ∷ 0 ∷ 0 ∷ []

read_packet_run : read_packet (reply_packet ++ three) ≡ ok (reply_packet, three)
unfolding read_packet
read_packet_run = refl

read_packet_sound_example :
    (reply_packet ++ three ≡ reply_packet ++ three)
    × (20 ≤ length reply_packet)
    × (length reply_packet ≤ max_packet_length)
    × (be (take 4 reply_packet) ≡ length reply_packet)
read_packet_sound_example = read_packet_sound (reply_packet ++ three) read_packet_run

parse_llcp-append_llcp_example :
    parse_llcp (append_llcp [] 0x1104 three ++ three) ≡ ok (0x1104, three, three)
parse_llcp-append_llcp_example =
    parse_llcp-append_llcp 0x1104 three three (omega arith) (omega arith)

llcp_run : parse_llcp (0 ∷ 0 ∷ 0 ∷ 7 ∷ 0x38 ∷ 7 ∷ 9 ∷ 5 ∷ []) ≡ ok (0x3807, 9 ∷ [], 5 ∷ [])
unfolding parse_llcp uint16_at uint32_at
llcp_run = refl

read_reply_envelope-template_example :
    read_reply_envelope (marshal_binary reply_header ++ (template reply 701 ++ three))
    ≡ ok (reply, three)
read_reply_envelope-template_example = read_reply_envelope-template reply 701 three (record {
  header = omega arith;
  size = refl;
  id = refl;
  ors_bitmap = omega arith;
  compressed = omega arith;
  return_ors_handle = omega arith;
  return_data_function_id = omega arith;
  request_data_function_id = omega arith;
  rc_class = omega arith;
  code_fits = omega arith;
  rc_code = refl;
})

-- An item whose length is below its own prefix.
abbrev short_item : Bytes
short_item = 0 ∷ 0 ∷ 0 ∷ 5 ∷ 0x38 ∷ 1 ∷ []
