-- ===== src/Wire/Packets.antt =====
-- The packet header: reading back what was written.
use i.Prelude.{
  ℕ, ◌+◌, ◌%◌, ◌^◌, ◌≤◌, ◌<◌, ◌≡◌, Bytes, [], ◌∷◌, ◌++◌, length, take, drop, ◌∙◌, ◌==◌, ◌-◌,
  if◌then◌else◌, take-append-drop, length-take, take-append, drop-append, length-append, Bool-cases,
  ltb, inl, inr, ◌⊎◌, arith, le→ltb_false, eq→==,
}
use i.Errors.{header_too_short, ok, err}
use i.Binary.{be, uint16_at_ok, uint32_at_ok, be-put_u16, be-put_u32}
use i.Wire.{max_packet_length, read_packet, Header, marshal_binary, parse_header, header_fields}

pub record InRange (h : Header) : Type 0 where
  pub length : h.length < 2 ^ 32
  pub header_id : h.header_id < 2 ^ 16
  pub server_id : h.server_id < 2 ^ 16
  pub cs_instance : h.cs_instance < 2 ^ 32
  pub correlation_id : h.correlation_id < 2 ^ 32
  pub template_length : h.template_length < 2 ^ 16
  pub req_rep_id : h.req_rep_id < 2 ^ 16

-- The header whose fields behind the length start at offset `at`.
abbrev header_at : ℕ → ℕ → Bytes → Header
header_at at n d = record {
  length = n;
  header_id = be (take 2 (drop at d));
  server_id = be (take 2 (drop (at + 2) d));
  cs_instance = be (take 4 (drop (at + 4) d));
  correlation_id = be (take 4 (drop (at + 8) d));
  template_length = be (take 2 (drop (at + 12) d));
  req_rep_id = be (take 2 (drop (at + 14) d));
}

header_fields_ok :
    (at n : ℕ) (d : Bytes) → at + 16 ≤ length d → header_fields at n d ≡ ok (header_at at n d)
unfolding header_fields
header_fields_ok at n d h = rw (
  uint16_at_ok at d (omega arith),
  uint16_at_ok (at + 2) d (omega arith),
  uint32_at_ok (at + 4) d (omega arith),
  uint32_at_ok (at + 8) d (omega arith),
  uint16_at_ok (at + 12) d (omega arith),
  uint16_at_ok (at + 14) d (omega arith),
)

parse_header_step :
    (d : Bytes)
    → 20 ≤ length d
    → parse_header d ≡ (
        if be (take 4 d) == length d % 2 ^ 32
        then header_fields 4 (be (take 4 d)) d
        else header_fields 0 ((length d + 4) % 2 ^ 32) d)
unfolding parse_header
parse_header_step d h = rw (le→ltb_false (length d) 20 h, uint32_at_ok 0 d (omega arith))

-- Data that starts with its own length is read from offset 4 on.
parse_header_prefixed :
    (d : Bytes)
    → 20 ≤ length d
    → length d < 2 ^ 32
    → be (take 4 d) ≡ length d
    → parse_header d ≡ header_fields 4 (length d) d
parse_header_prefixed d h k e =
    rw (parse_header_step d h, e, eq→== (length d) (length d % 2 ^ 32) (omega arith))

-- A header whose fields fit their words, in front of a body so that its length field is the length
-- of the whole packet, is parsed back.
pub parse_header-marshal_binary :
    (h : Header) (body : Bytes)
    → InRange h
    → h.length ≡ 20 + length body
    → parse_header (marshal_binary h ++ body) ≡ ok h
unfolding marshal_binary
parse_header-marshal_binary h body r e =
    parse_header_prefixed (marshal_binary h ++ body) (omega arith) (omega (arith, r.length))
      (be-put_u32 h.length r.length ∙ omega arith)
    ∙ header_fields_ok 4 (length (marshal_binary h ++ body)) (marshal_binary h ++ body)
        (omega arith)
    ∙ ground (
      arith,
      be-put_u16 h.header_id,
      be-put_u16 h.server_id,
      be-put_u32 h.cs_instance,
      be-put_u32 h.correlation_id,
      be-put_u16 h.template_length,
      be-put_u16 h.req_rep_id,
    )

pub parse_header_long : (d : Bytes) → 20 ≤ length d → (h : Header) × (parse_header d ≡ ok h)
parse_header_long d k = elim (Bool-cases (be (take 4 d) == length d % 2 ^ 32)) [
  | inl same ↦ (
    header_at 4 (be (take 4 d)) d,
    rw (parse_header_step d k, same) (header_fields_ok 4 (be (take 4 d)) d (omega arith)),
  )
  | inr other ↦ (
    header_at 0 ((length d + 4) % 2 ^ 32) d,
    rw (parse_header_step d k, other) (header_fields_ok 0 _ d (omega arith)),
  )
]

-- `ParseHeader` succeeds exactly on 20 bytes or more, and never reads out of range.
pub parse_header_total :
    (d : Bytes)
    → ((length d < 20) × (parse_header d ≡ err (header_too_short (length d))))
      ⊎ ((20 ≤ length d) × ((h : Header) × (parse_header d ≡ ok h)))
parse_header_total d = elim (Bool-cases (ltb (length d) 20)) [
  | inl short ↦ inl (ground arith, unfold parse_header in rw short)
  | inr long ↦ inr (ground arith, parse_header_long d (ground arith))
]

-- What `readPacket` returns is what the connection delivered, and its length is the announced one.
pub read_packet_sound :
    (s : Bytes) {p rest : Bytes}
    → read_packet s ≡ ok (p, rest)
    → (s ≡ p ++ rest)
      × (20 ≤ length p)
      × (length p ≤ max_packet_length)
      × (be (take 4 p) ≡ length p)
unfolding read_packet
read_packet_sound (a ∷ b ∷ c ∷ d ∷ s) {p} {rest} h =
    let k = be (a ∷ b ∷ c ∷ d ∷ []) - 4 in ground (arith, take-append-drop k s, length-take k s)
read_packet_sound _ h = cc

-- A packet of 20 bytes up to the maximum whose length prefix is right is read off the connection,
-- whatever follows it.
pub read_packet_complete :
    (p rest : Bytes)
    → 20 ≤ length p
    → length p ≤ max_packet_length
    → be (take 4 p) ≡ length p
    → read_packet (p ++ rest) ≡ ok (p, rest)
unfolding read_packet
read_packet_complete (a ∷ b ∷ c ∷ d ∷ p) rest h k e =
    let n : be (a ∷ b ∷ c ∷ d ∷ []) - 4 ≡ length p = omega arith in
    ground (arith, n, take-append p rest, drop-append p rest, length-append p rest)
read_packet_complete _ rest h k e = absurd (omega arith)
