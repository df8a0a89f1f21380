-- ===== src/Protocol/Ack.antt =====
-- The readiness ACK: encode_pairing_ack and decode_pairing_ack.
use niw_pspto_pc.Base.{ℕ, ◌≤◌, ◌≡◌, inl, inr, List, [], ◌∷◌, Option-cases, length, All, arith}
use niw_pspto_pc.Struct.{IsByte, Order, unpack}
use niw_pspto_pc.Struct.RoundTrip.{Fits-pack, length-pack, unpack-pack}
use niw_pspto_pc.Struct.Canonical.{pack-unpack}
use niw_pspto_pc.Protocol.{
  pairing_ack_magic, pairing_ack_version, pairing_ack_size, pairing_ack_struct, pairing_token_max,
  ok, check_ack, encoded, encode_pairing_ack, decode_pairing_ack,
}

abbrev ack_fields : ℕ → List ℕ
ack_fields t = pairing_ack_magic ∷ pairing_ack_version ∷ pairing_ack_size ∷ t ∷ []

-- For every 25-bit token the ACK is encoded, takes 12 bytes, and decodes to the token.
pub decode_ack-encode_ack :
    (t : ℕ)
    → t ≤ pairing_token_max
    → (bs : List ℕ) × (encode_pairing_ack t ≡ encoded bs)
      × (length bs ≡ 12)
      × (decode_pairing_ack bs ≡ ok t)
unfolding encode_pairing_ack decode_pairing_ack
decode_ack-encode_ack t h =
    let (bs, e) = Fits-pack Order.big pairing_ack_struct (ack_fields t) (omega arith) in
    let n = length-pack Order.big pairing_ack_struct (ack_fields t) e in
    let back = unpack-pack Order.big pairing_ack_struct (ack_fields t) e in
    (bs, ground arith, n, ground arith)

check_ack_fields :
    (vs : List ℕ) {t : ℕ} → check_ack vs ≡ ok t → (vs ≡ ack_fields t) × (t ≤ pairing_token_max)
unfolding check_ack
check_ack_fields (m ∷ v ∷ d ∷ t ∷ []) h = ground arith
check_ack_fields vs h = cc

-- Bytes that decode to a token are the ones that `encode_pairing_ack` writes for it.
pub encode_ack-decode_ack :
    (bs : List ℕ) (t : ℕ)
    → All IsByte bs
    → decode_pairing_ack bs ≡ ok t
    → encode_pairing_ack t ≡ encoded bs
unfolding encode_pairing_ack decode_pairing_ack
encode_ack-decode_ack bs t h e = elim (Option-cases (unpack Order.big pairing_ack_struct bs)) [
  | inl bad ↦ absurd (ground arith)
  | inr (vs, u) ↦
      let checked : check_ack vs ≡ ok t = ground arith in
      let n : length bs ≡ pairing_ack_size = ground arith in
      ground (
        arith,
        check_ack_fields vs {t = t} checked,
        pack-unpack Order.big pairing_ack_struct bs h n u,
      )
]
