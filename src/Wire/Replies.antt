-- ===== src/Wire/Replies.antt =====
-- Replies: the reply template is read back field by field, and no reply reads out of range.
use i.Prelude.{
  ℕ, ◌+◌, ◌≤◌, ◌<◌, ◌^◌, ◌≡◌, ◌≢◌, ◌⊎◌, inl, inr, Bytes, ◌++◌, signed32, length, take, drop, arith,
  le→ltb_false, eq→==, ◌==◌, Bool-cases, ltb, refl, ◌∙◌,
}
use i.Errors.{ok, err, header_too_short, reply_too_short, unexpected_reply_id}
use i.Binary.{
  put_u16, put_u32, be, uint16_at_ok, uint32_at_ok, slice_to_end, be-put_u16, be-put_u32,
}
use i.Wire.{
  Header, marshal_binary, parse_header, ReplyEnvelope, read_reply_envelope,
  read_simple_reply_for_id,
}
use i.Wire.Packets.{InRange, parse_header-marshal_binary, parse_header_long, parse_header_total}

-- The 20 bytes of the reply template.
abbrev pub template : ReplyEnvelope → ℕ → Bytes
template e code =
    put_u32 e.ors_bitmap
    ++ put_u32 e.compressed
    ++ put_u16 e.return_ors_handle
    ++ put_u16 e.return_data_function_id
    ++ put_u16 e.request_data_function_id
    ++ put_u16 e.rc_class
    ++ put_u32 code

pub record IsReply (e : ReplyEnvelope) (code : ℕ) (payload : Bytes) : Type 0 where
  pub header : InRange e.header
  pub size : e.header.length ≡ 40 + length payload
  pub id : e.header.req_rep_id ≡ 0x2800
  pub ors_bitmap : e.ors_bitmap < 2 ^ 32
  pub compressed : e.compressed < 2 ^ 32
  pub return_ors_handle : e.return_ors_handle < 2 ^ 16
  pub return_data_function_id : e.return_data_function_id < 2 ^ 16
  pub request_data_function_id : e.request_data_function_id < 2 ^ 16
  pub rc_class : e.rc_class < 2 ^ 16
  pub code_fits : code < 2 ^ 32
  pub rc_code : e.rc_code ≡ signed32 code

-- The envelope whose header is `h`, read off the template at byte 20.
abbrev envelope_of : Header → Bytes → ReplyEnvelope
envelope_of h d = record {
  header = h;
  ors_bitmap = be (take 4 (drop 20 d));
  compressed = be (take 4 (drop 24 d));
  return_ors_handle = be (take 2 (drop 28 d));
  return_data_function_id = be (take 2 (drop 30 d));
  request_data_function_id = be (take 2 (drop 32 d));
  rc_class = be (take 2 (drop 34 d));
  rc_code = signed32 (be (take 4 (drop 36 d)));
}

read_reply_envelope_step :
    (d : Bytes) {h : Header}
    → 40 ≤ length d
    → parse_header d ≡ ok h
    → h.req_rep_id ≡ 0x2800
    → read_reply_envelope d ≡ ok (envelope_of h d, drop 40 d)
unfolding read_reply_envelope
read_reply_envelope_step d {h} long e id = rw (
  le→ltb_false (length d) 40 long,
  e,
  eq→== h.req_rep_id 0x2800 id,
  uint32_at_ok 20 d (omega arith),
  uint32_at_ok 24 d (omega arith),
  uint16_at_ok 28 d (omega arith),
  uint16_at_ok 30 d (omega arith),
  uint16_at_ok 32 d (omega arith),
  uint16_at_ok 34 d (omega arith),
  uint32_at_ok 36 d (omega arith),
  slice_to_end 40 d long,
)

-- A reply whose fields fit their words, with a database reply id and its right length in the header,
-- is read back field by field, with its payload.
pub read_reply_envelope-template :
    (e : ReplyEnvelope) (code : ℕ) (payload : Bytes)
    → IsReply e code payload
    → read_reply_envelope (marshal_binary e.header ++ (template e code ++ payload))
      ≡ ok (e, payload)
unfolding marshal_binary
read_reply_envelope-template e code payload r =
    read_reply_envelope_step _ (omega arith)
      (parse_header-marshal_binary e.header (template e code ++ payload) r.header
        (omega (arith, r.size)))
      r.id
    ∙ ground (
      arith,
      be-put_u32 e.ors_bitmap,
      be-put_u32 e.compressed,
      be-put_u16 e.return_ors_handle,
      be-put_u16 e.return_data_function_id,
      be-put_u16 e.request_data_function_id,
      be-put_u16 e.rc_class,
      be-put_u32 code,
    )

-- `readReplyEnvelope` tells apart a short packet, a foreign reply id and a reply, and reads nothing
-- out of range.
pub read_reply_envelope_total :
    (d : Bytes)
    → (read_reply_envelope d ≡ err (reply_too_short (length d))) × (length d < 40)
      ⊎ ((h : Header) × (parse_header d ≡ ok h)
          × (40 ≤ length d)
          × ((read_reply_envelope d ≡ err (unexpected_reply_id h.req_rep_id))
                × (h.req_rep_id ≢ 0x2800)
              ⊎ ((e : ReplyEnvelope) × (read_reply_envelope d ≡ ok (e, drop 40 d))
                  × (e.header ≡ h)
                  × (h.req_rep_id ≡ 0x2800))))
read_reply_envelope_total d = elim (Bool-cases (ltb (length d) 40)) [
  | inl short ↦ inl (unfold read_reply_envelope in rw short, ground arith)
  | inr long ↦
      let (h, parsed) = parse_header_long d (ground arith) in
      inr (
        h,
        parsed,
        ground arith,
        elim (Bool-cases (h.req_rep_id == 0x2800)) [
          | inl same ↦ inr (
            envelope_of h d,
            read_reply_envelope_step d (ground arith) parsed (ground arith),
            refl,
            ground arith,
          )
          | inr other ↦ inl (unfold read_reply_envelope in rw (long, parsed, other), ground arith)
        ],
      )
]

-- The replies of the signon and connect handshake: the return code and what follows it, or one of
-- the three errors.
pub read_simple_reply_for_id_total :
    (d : Bytes) (expected : ℕ)
    → (read_simple_reply_for_id d expected ≡ err (header_too_short (length d))) × (length d < 20)
      ⊎ ((h : Header) × (parse_header d ≡ ok h)
          × (20 ≤ length d)
          × ((read_simple_reply_for_id d expected ≡ err (unexpected_reply_id h.req_rep_id))
                × (h.req_rep_id ≢ expected)
              ⊎ (read_simple_reply_for_id d expected ≡ err (reply_too_short (length d)))
                × (h.req_rep_id ≡ expected)
                × (length d < 24)
              ⊎ (read_simple_reply_for_id d expected
                  ≡ ok (signed32 (be (take 4 (drop 20 d))), drop 24 d))
                × (h.req_rep_id ≡ expected)
                × (24 ≤ length d)))
read_simple_reply_for_id_total d expected = elim (parse_header_total d) [
  | inl (short, e) ↦ inl (unfold read_simple_reply_for_id in rw e, short)
  | inr (long, (h, parsed)) ↦ inr (
    h,
    parsed,
    long,
    elim (Bool-cases (h.req_rep_id == expected)) [
      | inr other ↦ inl (unfold read_simple_reply_for_id in rw (parsed, other), ground arith)
      | inl same ↦ inr (elim (Bool-cases (ltb (length d) 24)) [
        | inl short ↦ inl (
          unfold read_simple_reply_for_id in rw (parsed, same, short),
          ground arith,
          ground arith,
        )
        | inr full ↦
            let fits : 24 ≤ length d = ground arith in
            inr (
              unfold read_simple_reply_for_id in
                  rw (parsed, same, full, uint32_at_ok 20 d fits, slice_to_end 24 d fits),
              ground arith,
              fits,
            )
      ])
    ],
  )
]
