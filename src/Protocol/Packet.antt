-- ===== src/Protocol/Packet.antt =====
-- decode_packet against encode_packet.
use niw_pspto_pc.Base.{
  ℕ, ◌^◌, ◌≤◌, ◌<◌, ◌≡◌, refl, ◌↔◌, inl, inr, List, [], ◌∷◌, some, Option-cases, length, append-nil,
  arith,
}
use niw_pspto_pc.Struct.{Order, pack}
use niw_pspto_pc.Struct.RoundTrip.{
  unpack_from-prefix, Fits-pack, pack-Fits, length-pack, unpack-pack, unpack_from-pack,
}
use niw_pspto_pc.Protocol.{
  input_magic, input_version, header_struct, packet_struct, packet_size, pairing_token_max,
  InputPacket, ok, read_v2, decode_body, decode_packet, unpack_header, encoded, encode_packet,
}

-- A packet that version 2 can carry: every field in the range of its width.
pub record IsSendable (p : InputPacket) : Type 0 where
  pub sequence : p.sequence < 2 ^ 32
  pub buttons : p.buttons < 2 ^ 32
  pub analog_x : p.analog_x < 2 ^ 8
  pub analog_y : p.analog_y < 2 ^ 8
  pub timestamp_us : p.timestamp_us < 2 ^ 64
  pub reserved : p.reserved ≡ 0
  pub session_token : (t : ℕ) × (p.session_token ≡ some t) × (t ≤ pairing_token_max)

abbrev pub fields : InputPacket → ℕ → List ℕ
fields p t =
    input_magic ∷ input_version ∷ packet_size ∷ p.sequence ∷ p.buttons ∷ p.analog_x ∷ p.analog_y
    ∷ p.reserved ∷ t ∷ p.timestamp_us ∷ []

-- The first three fields of a packed packet are those of the header.
unpack_header-pack :
    (vs : List ℕ) (a b c : ℕ) {bs : List ℕ}
    → pack Order.big packet_struct (a ∷ b ∷ c ∷ vs) ≡ some bs
    → unpack_header bs ≡ ok (a, b, c)
unfolding unpack_header
unpack_header-pack vs a b c {bs} h =
    let whole = rw append-nil at (unpack_from-pack Order.big packet_struct (a ∷ b ∷ c ∷ vs) [] h) in
    let front =
      unpack_from-prefix Order.big header_struct (4 ∷ 4 ∷ 1 ∷ 1 ∷ 2 ∷ 4 ∷ 8 ∷ []) (a ∷ b ∷ c ∷ [])
        vs bs refl whole in
    rw (front, unpack_header) refl

pub encode_packet_shape :
    (p : InputPacket)
    → IsSendable p
    → (t : ℕ) × (bs : List ℕ) × (p.session_token ≡ some t)
      × (t ≤ pairing_token_max)
      × (encode_packet p ≡ encoded bs)
      × (pack Order.big packet_struct (fields p t) ≡ some bs)
unfolding encode_packet
encode_packet_shape p s =
    let (t, et, bt) = s.session_token in
    let (bs, e) = Fits-pack Order.big packet_struct (fields p t) (omega arith) in
    (t, bs, et, bt, ground arith, e)

-- A decoder that accepts the header reads the version 2 body of a packed packet.
decode_packed :
    (p : InputPacket) (t : ℕ) {bs : List ℕ}
    → t ≤ pairing_token_max
    → p.reserved ≡ 0
    → p.session_token ≡ some t
    → pack Order.big packet_struct (fields p t) ≡ some bs
    → decode_packet bs ≡ ok p
unfolding decode_packet decode_body read_v2
decode_packed p t {bs} ht hr hs e = ground (
  arith,
  length-pack Order.big packet_struct (fields p t) e,
  unpack_header-pack
      (p.sequence ∷ p.buttons ∷ p.analog_x ∷ p.analog_y ∷ p.reserved ∷ t ∷ p.timestamp_us ∷ [])
      input_magic input_version packet_size e,
  unpack-pack Order.big packet_struct (fields p t) e,
)

-- What `encode_packet` has checked when it returns bytes.
encode_packet_parts :
    (p : InputPacket) {bs : List ℕ}
    → encode_packet p ≡ encoded bs
    → (t : ℕ) × (p.session_token ≡ some t)
      × (t ≤ pairing_token_max)
      × (p.reserved ≡ 0)
      × (pack Order.big packet_struct (fields p t) ≡ some bs)
unfolding encode_packet
encode_packet_parts p {bs} e = elim (Option-cases p.session_token) [
  | inl missing ↦ absurd (ground arith)
  | inr (t, present) ↦ elim (Option-cases (pack Order.big packet_struct (fields p t))) [
    | inl misfit ↦ absurd (ground arith)
    | inr (packed, fit) ↦ (t, present, ground arith, ground arith, ground arith)
  ]
]

encode_packet-IsSendable :
    (p : InputPacket) {bs : List ℕ} → encode_packet p ≡ encoded bs → IsSendable p
encode_packet-IsSendable p e =
    let (t, present, small, zero_reserved, packed) = encode_packet_parts p e in
    let fits = pack-Fits Order.big packet_struct (fields p t) packed in
    record {
      sequence = omega arith;
      buttons = omega arith;
      analog_x = omega arith;
      analog_y = omega arith;
      timestamp_us = omega arith;
      reserved = zero_reserved;
      session_token = (t, present, small);
    }

-- A packet encodes exactly when it is sendable: some bytes come back if and only if every field
-- is in the range of its width, the reserved field is zero and there is a 25-bit token.
pub encode_packet_iff :
    (p : InputPacket) → IsSendable p ↔ ((bs : List ℕ) × (encode_packet p ≡ encoded bs))
encode_packet_iff p = (
  λ s. let (t, bs, et, bt, e, packed) = encode_packet_shape p s in (bs, e),
  λ r. encode_packet-IsSendable p r.1,
)

-- Whatever bytes `encode_packet` returns, they are 32 and `decode_packet` reads the packet back.
pub decode_packet-encode_packet :
    (p : InputPacket) {bs : List ℕ}
    → encode_packet p ≡ encoded bs
    → (length bs ≡ 32) × (decode_packet bs ≡ ok p)
decode_packet-encode_packet p e =
    let (t, present, small, zero_reserved, packed) = encode_packet_parts p e in
    (
      length-pack Order.big packet_struct (fields p t) packed,
      decode_packed p t small zero_reserved present packed,
    )
