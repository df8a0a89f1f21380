-- ===== src/Protocol/Bounds.antt =====
-- The ranges of the fields that `decode_packet` accepts.
use niw_pspto_pc.Base.{ℕ, ◌≤◌, ◌<◌, ◌^◌, ◌≡◌, inl, inr, List, [], ◌∷◌, some, All, arith}
use niw_pspto_pc.Struct.{IsByte, Order}
use niw_pspto_pc.Struct.RoundTrip.{Fits, pack-Fits}
use niw_pspto_pc.Struct.Canonical.{pack-unpack}
use niw_pspto_pc.Protocol.{
  packet_struct, v1_packet_struct, pairing_token_max, InputPacket, ok, read_v1, read_v2,
  decode_packet,
}
use niw_pspto_pc.Protocol.Accept.{decode_body_parts, decode_packet_parts, header_of_accepted}

-- The ranges of a packet on the wire; a token has 25 bits.
pub record IsInRange (p : InputPacket) : Type 0 where
  pub sequence : p.sequence < 2 ^ 32
  pub buttons : p.buttons < 2 ^ 32
  pub analog_x : p.analog_x ≤ 255
  pub analog_y : p.analog_y ≤ 255
  pub timestamp_us : p.timestamp_us < 2 ^ 64
  pub reserved : p.reserved ≡ 0
  pub session_token : (t : ℕ) → p.session_token ≡ some t → t ≤ pairing_token_max

read_v1-IsInRange :
    (vs : List ℕ) {p : InputPacket} → read_v1 vs ≡ ok p → Fits v1_packet_struct vs → IsInRange p
unfolding read_v1
read_v1-IsInRange (a ∷ b ∷ c ∷ s ∷ u ∷ x ∷ y ∷ r ∷ z ∷ []) h f = record {
  sequence = ground arith;
  buttons = ground arith;
  analog_x = ground arith;
  analog_y = ground arith;
  timestamp_us = ground arith;
  reserved = ground arith;
  session_token = λ t e. ground arith;
}
read_v1-IsInRange vs h f = cc

read_v2-IsInRange :
    (vs : List ℕ) {p : InputPacket} → read_v2 vs ≡ ok p → Fits packet_struct vs → IsInRange p
unfolding read_v2
read_v2-IsInRange (a ∷ b ∷ c ∷ s ∷ u ∷ x ∷ y ∷ r ∷ k ∷ z ∷ []) h f = record {
  sequence = ground arith;
  buttons = ground arith;
  analog_x = ground arith;
  analog_y = ground arith;
  timestamp_us = ground arith;
  reserved = ground arith;
  session_token = λ t e. ground arith;
}
read_v2-IsInRange vs h f = cc

-- Whatever bytes come in, an accepted packet has a 32-bit sequence number and button word, both
-- analog values at most 255, a 64-bit time, no reserved bits, and a token of 25 bits if it has one.
pub decode_packet-IsInRange :
    (bs : List ℕ) (p : InputPacket) → All IsByte bs → decode_packet bs ≡ ok p → IsInRange p
decode_packet-IsInRange bs p bytes h =
    let (m, v, d, header) = header_of_accepted bs h in
    let (magic, body) = decode_packet_parts bs header h in
    elim body [
      | inl legacy ↦
          let (vs, e, r, size_ok, n) = decode_body_parts v d v1_packet_struct read_v1 bs legacy in
          read_v1-IsInRange vs r (
            pack-Fits Order.big v1_packet_struct vs
              (pack-unpack Order.big v1_packet_struct bs bytes n e))
      | inr (version, modern) ↦
          let (vs, e, r, size_ok, n) = decode_body_parts v d packet_struct read_v2 bs modern in
          read_v2-IsInRange vs r (
            pack-Fits Order.big packet_struct vs (pack-unpack Order.big packet_struct bs bytes n e))
    ]
