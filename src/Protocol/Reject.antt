-- ===== src/Protocol/Reject.antt =====
-- The decoders raise their own errors and never `struct.error`, which no caller catches.
use niw_pspto_pc.Base.{
  ℕ, ◌≤◌, ◌≡◌, ◌≢◌, refl, inl, inr, List, [], ◌∷◌, Bool-cases, length, arith, ltb, ◌==◌,
}
use niw_pspto_pc.Struct.{Order, Format, size}
use niw_pspto_pc.Struct.Canonical.{length-unpack, unpack_from_total}
use niw_pspto_pc.Protocol.{
  header_struct, packet_struct, v1_packet_struct, pairing_ack_struct, bad_struct, Result,
  InputPacket, ok, err, read_v1, read_v2, decode_body, decode_packet, unpack_header, check_ack,
  decode_pairing_ack,
}

read_v1-ne-bad_struct : (vs : List ℕ) → length vs ≡ 9 → read_v1 vs ≢ err bad_struct
unfolding read_v1
read_v1-ne-bad_struct (a ∷ b ∷ c ∷ s ∷ u ∷ x ∷ y ∷ r ∷ z ∷ []) n = ground arith
read_v1-ne-bad_struct vs n = absurd (omega arith)

read_v2-ne-bad_struct : (vs : List ℕ) → length vs ≡ 10 → read_v2 vs ≢ err bad_struct
unfolding read_v2
read_v2-ne-bad_struct (a ∷ b ∷ c ∷ s ∷ u ∷ x ∷ y ∷ r ∷ t ∷ z ∷ []) n = ground arith
read_v2-ne-bad_struct vs n = absurd (omega arith)

three_fields : (vs : List ℕ) → length vs ≡ 3 → (a : ℕ) × (b : ℕ) × (c : ℕ) × (vs ≡ a ∷ b ∷ c ∷ [])
three_fields (a ∷ b ∷ c ∷ []) n = (a, b, c, refl)
three_fields vs n = absurd (omega arith)

header_total :
    (bs : List ℕ)
    → size header_struct ≤ length bs
    → (m : ℕ) × (v : ℕ) × (d : ℕ) × (unpack_header bs ≡ ok (m, v, d))
unfolding unpack_header
header_total bs h =
    let (vs, e, n) = unpack_from_total Order.big header_struct bs h in
    let (m, v, d, shape) = three_fields vs n in (m, v, d, ground arith)

decode_body-ne-bad_struct :
    (v d : ℕ) (f : Format) (read : List ℕ → Result InputPacket) (bs : List ℕ)
    → ((vs : List ℕ) → length vs ≡ length f → read vs ≢ err bad_struct)
    → decode_body v d f read bs ≢ err bad_struct
unfolding decode_body
decode_body-ne-bad_struct v d f read bs keep h = elim (Bool-cases (length bs == size f)) [
  | inl n ↦
      let (vs, e, count) = length-unpack Order.big f bs (ground arith) in
      keep vs count (ground arith)
  | inr n ↦ absurd (ground arith)
]

-- On every byte sequence `decode_packet` returns a packet or raises a `PacketError`: its
-- `struct` calls never fail, whatever the length and the version field are.
pub decode_packet-ne-bad_struct : (bs : List ℕ) → decode_packet bs ≢ err bad_struct
unfolding decode_packet
decode_packet-ne-bad_struct bs h = elim (Bool-cases (ltb (length bs) (size header_struct))) [
  | inl short ↦ absurd (ground arith)
  | inr long ↦
      let (m, v, d, header) = header_total bs (ground arith) in
      ground (
        arith,
        header,
        decode_body-ne-bad_struct v d v1_packet_struct read_v1 bs read_v1-ne-bad_struct,
        decode_body-ne-bad_struct v d packet_struct read_v2 bs read_v2-ne-bad_struct,
      )
]

check_ack-ne-bad_struct : (vs : List ℕ) → length vs ≡ 4 → check_ack vs ≢ err bad_struct
unfolding check_ack
check_ack-ne-bad_struct (m ∷ v ∷ d ∷ t ∷ []) n = ground arith
check_ack-ne-bad_struct vs n = absurd (omega arith)

-- On every byte sequence `decode_pairing_ack` returns a token or raises a `PacketError`: its
-- `struct` call never fails.
pub decode_ack-ne-bad_struct : (bs : List ℕ) → decode_pairing_ack bs ≢ err bad_struct
unfolding decode_pairing_ack
decode_ack-ne-bad_struct bs h = elim (Bool-cases (length bs == size pairing_ack_struct)) [
  | inl n ↦
      let (vs, e, count) = length-unpack Order.big pairing_ack_struct bs (ground arith) in
      check_ack-ne-bad_struct vs count (ground arith)
  | inr n ↦ absurd (ground arith)
]
