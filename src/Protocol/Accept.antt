-- ===== src/Protocol/Accept.antt =====
-- What `decode_packet` has checked when it accepts, and that it fails with its own errors alone.
use niw_pspto_pc.Base.{
  ℕ, ◌≤◌, ◌≡◌, ◌≢◌, refl, ◌⊎◌, inl, inr, List, [], ◌∷◌, none, some, Option-cases, Bool-cases,
  length, All, arith, ◌==◌,
}
use niw_pspto_pc.Struct.{IsByte, Order, Format, size, unpack_from, unpack}
use niw_pspto_pc.Struct.RoundTrip.{unpack_from-prefix}
use niw_pspto_pc.Struct.Canonical.{pack-unpack}
use niw_pspto_pc.Protocol.{
  input_magic, input_version, legacy_input_version, header_struct, packet_struct, v1_packet_struct,
  pairing_token_max, PacketError, Result, InputPacket, ok, err, read_v1, read_v2, decode_body,
  decode_packet, unpack_header, encoded, encode_packet,
}

-- The fields behind an accepted version 2 body.
read_v2_fields :
    (vs : List ℕ) {p : InputPacket}
    → read_v2 vs ≡ ok p
    → (a : ℕ) × (b : ℕ) × (c : ℕ) × (t : ℕ) × (vs
        ≡ a ∷ b ∷ c ∷ p.sequence ∷ p.buttons ∷ p.analog_x ∷ p.analog_y ∷ p.reserved ∷ t
          ∷ p.timestamp_us ∷ [])
      × (p.session_token ≡ some t)
      × (t ≤ pairing_token_max)
      × (p.reserved ≡ 0)
unfolding read_v2
read_v2_fields (a ∷ b ∷ c ∷ s ∷ u ∷ x ∷ y ∷ r ∷ t ∷ z ∷ []) h =
    (a, b, c, t, ground arith, ground arith, ground arith, ground arith)
read_v2_fields vs h = cc

read_v1_token : (vs : List ℕ) {p : InputPacket} → read_v1 vs ≡ ok p → p.session_token ≡ none
unfolding read_v1
read_v1_token (a ∷ b ∷ c ∷ s ∷ u ∷ x ∷ y ∷ r ∷ z ∷ []) h = ground arith
read_v1_token vs h = cc

unpack_header_fields :
    (bs : List ℕ) {m v d : ℕ}
    → unpack_header bs ≡ ok (m, v, d)
    → unpack_from Order.big header_struct bs ≡ some (m ∷ v ∷ d ∷ [])
unfolding unpack_header
unpack_header_fields bs h = ground arith

pub decode_body_parts :
    (v d : ℕ) (f : Format) (read : List ℕ → Result InputPacket) (bs : List ℕ) {p : InputPacket}
    → decode_body v d f read bs ≡ ok p
    → (vs : List ℕ) × (unpack Order.big f bs ≡ some vs)
      × (read vs ≡ ok p)
      × (d ≡ size f)
      × (length bs ≡ size f)
unfolding decode_body
decode_body_parts v d f read bs h = elim (Option-cases (unpack Order.big f bs)) [
  | inl bad ↦ absurd (ground arith)
  | inr (vs, e) ↦ (vs, e, ground arith, ground arith, ground arith)
]

Result-cases {ℓ} :
    {A : Type ℓ} (r : Result A) → ((a : A) × (r ≡ ok a)) ⊎ ((e : PacketError) × (r ≡ err e))
Result-cases (ok a) = inl (a, refl)
Result-cases (err e) = inr (e, refl)

canonical :
    (bs : List ℕ) (p : InputPacket) {m v d : ℕ} {vs : List ℕ}
    → All IsByte bs
    → unpack_header bs ≡ ok (m, v, d)
    → m ≡ input_magic
    → v ≡ input_version
    → d ≡ size packet_struct
    → length bs ≡ size packet_struct
    → unpack Order.big packet_struct bs ≡ some vs
    → read_v2 vs ≡ ok p
    → encode_packet p ≡ encoded bs
unfolding encode_packet unpack
canonical bs p {m} {v} {d} {vs} bytes header em ev ed n e r =
    let (a, b, c, t, shape, present, small, zero_reserved) = read_v2_fields vs r in
    let whole : unpack_from Order.big packet_struct bs ≡ some vs = ground arith in
    let tail =
      p.sequence ∷ p.buttons ∷ p.analog_x ∷ p.analog_y ∷ p.reserved ∷ t ∷ p.timestamp_us ∷ [] in
    let front =
      unpack_from-prefix Order.big header_struct (4 ∷ 4 ∷ 1 ∷ 1 ∷ 2 ∷ 4 ∷ 8 ∷ []) (a ∷ b ∷ c ∷ [])
        tail bs refl (rw shape at whole) in
    ground (
      arith,
      front,
      unpack_header_fields bs header,
      pack-unpack Order.big packet_struct bs bytes n e,
    )

-- The header of an accepted datagram that carries a token, and the body that it selects.
pub decode_packet_parts :
    (bs : List ℕ) {p : InputPacket} {m v d : ℕ}
    → unpack_header bs ≡ ok (m, v, d)
    → decode_packet bs ≡ ok p
    → (m ≡ input_magic)
      × ((decode_body v d v1_packet_struct read_v1 bs ≡ ok p)
          ⊎ ((v ≡ input_version) × (decode_body v d packet_struct read_v2 bs ≡ ok p)))
unfolding decode_packet
decode_packet_parts bs {v = v} e h = elim (Bool-cases (v == legacy_input_version)) [
  | inl legacy ↦ (ground arith, inl (ground arith))
  | inr modern ↦ (ground arith, inr (ground arith, ground arith))
]

pub header_of_accepted :
    (bs : List ℕ) {p : InputPacket}
    → decode_packet bs ≡ ok p
    → (m : ℕ) × (v : ℕ) × (d : ℕ) × (unpack_header bs ≡ ok (m, v, d))
unfolding decode_packet
header_of_accepted bs h = elim (Result-cases (unpack_header bs)) [
  | inl ((m, v, d), e) ↦ (m, v, d, e)
  | inr (x, e) ↦ absurd (ground arith)
]

-- A datagram that decodes to a packet with a token is the one that `encode_packet` writes for
-- that packet: no other bytes stand for it.
pub encode_packet-decode_packet :
    (bs : List ℕ) (p : InputPacket)
    → All IsByte bs
    → p.session_token ≢ none
    → decode_packet bs ≡ ok p
    → encode_packet p ≡ encoded bs
encode_packet-decode_packet bs p bytes tok h =
    let (m, v, d, header) = header_of_accepted bs h in
    let (magic, body) = decode_packet_parts bs header h in
    elim body [
      | inl legacy ↦
          let (vs, e, r, size_ok, n) = decode_body_parts v d v1_packet_struct read_v1 bs legacy in
          absurd (tok (read_v1_token vs r))
      | inr (version, modern) ↦
          let (vs, e, r, size_ok, n) = decode_body_parts v d packet_struct read_v2 bs modern in
          canonical bs p bytes header magic version size_ok n e r
    ]
