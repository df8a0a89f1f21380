-- ===== src/Protocol/Tests.antt =====
-- Concrete packets, datagrams, ACKs and codes.
use niw_pspto_pc.Base.{ℕ, ◌≡◌, ◌≤◌, ◌↔◌, refl, List, [], ◌∷◌, codes, some, length, All, arith}
use niw_pspto_pc.Struct.{IsByte, pack, unpack, unpack_from}
use niw_pspto_pc.Base.Dict.{lookup}
use mathlib.Core.List.{flat_map}
use niw_pspto_pc.Protocol.{
  InputPacket, pairing_token_max, decode_packet, decode_pairing_ack, encode_packet, encoded, ok,
  encode_pairing_ack,
}
use niw_pspto_pc.Protocol.Packet.{IsSendable, decode_packet-encode_packet, encode_packet_iff}
use niw_pspto_pc.Protocol.Bounds.{IsInRange, decode_packet-IsInRange}
use niw_pspto_pc.Protocol.Accept.{encode_packet-decode_packet}
use niw_pspto_pc.Protocol.Ack.{decode_ack-encode_ack}
use niw_pspto_pc.Protocol.Pairing.{
  Unicode, IsUnicode, ascii_space, ascii_upper, normalize, format_pairing_token,
  parse_pairing_token, value, pairing_values,
}
use niw_pspto_pc.Protocol.Pairing.RoundTrip.{parse_token-format_token}
use niw_pspto_pc.Protocol.Pairing.Canonical.{format_token-parse_token}

-- CROSS and START, the stick up to the left.
abbrev packet : InputPacket
packet = record {
  sequence = 0xffff_ffff;
  buttons = 0x410;
  analog_x = 0;
  analog_y = 3;
  timestamp_us = 1_700_000_000_000_000;
  reserved = 0;
  session_token = some 0x0102_0304;
}

abbrev datagram : List ℕ
datagram =
    0x50 ∷ 0x53 ∷ 0x50 ∷ 0x49 ∷ 0 ∷ 2 ∷ 0 ∷ 32 ∷ 255 ∷ 255 ∷ 255 ∷ 255 ∷ 0 ∷ 0 ∷ 4 ∷ 0x10 ∷ 0 ∷ 3
    ∷ 0 ∷ 0 ∷ 1 ∷ 2 ∷ 3 ∷ 4 ∷ 0 ∷ 6 ∷ 10 ∷ 36 ∷ 24 ∷ 30 ∷ 64 ∷ 0 ∷ []

encoded_packet : encode_packet packet ≡ encoded datagram
unfolding encode_packet pack
encoded_packet = refl

decoded_datagram : decode_packet datagram ≡ ok packet
unfolding decode_packet unpack_from unpack
decoded_datagram = refl

decode_packet-encode_packet_example : (length datagram ≡ 32) × (decode_packet datagram ≡ ok packet)
decode_packet-encode_packet_example = decode_packet-encode_packet packet encoded_packet

encode_packet_iff_example :
    IsSendable packet ↔ ((bs : List ℕ) × (encode_packet packet ≡ encoded bs))
encode_packet_iff_example = encode_packet_iff packet

datagram_bytes : All IsByte datagram
datagram_bytes = omega arith

encode_packet-decode_packet_example : encode_packet packet ≡ encoded datagram
encode_packet-decode_packet_example =
    encode_packet-decode_packet datagram packet datagram_bytes (λ e. cc) decoded_datagram

abbrev ack : List ℕ
ack = 0x50 ∷ 0x53 ∷ 0x50 ∷ 0x41 ∷ 0 ∷ 1 ∷ 0 ∷ 12 ∷ 1 ∷ 2 ∷ 3 ∷ 4 ∷ []

decode_ack-encode_ack_example :
    (bs : List ℕ) × (encode_pairing_ack 0x0102_0304 ≡ encoded bs)
    × (length bs ≡ 12)
    × (decode_pairing_ack bs ≡ ok 0x0102_0304)
decode_ack-encode_ack_example = decode_ack-encode_ack 0x0102_0304 (omega arith)

decoded_ack : decode_pairing_ack ack ≡ ok 0x0102_0304
unfolding decode_pairing_ack unpack
decoded_ack = refl

ack_bytes : All IsByte ack
ack_bytes = omega arith

-- A runtime that knows ASCII only.
abbrev ascii : Unicode
ascii = record { is_space = ascii_space; upper = λ c. ascii_upper c ∷ [] }

ascii-IsUnicode : IsUnicode ascii
ascii-IsUnicode = record { space = λ c h. refl; upper = λ c h. refl }

parse_token-format_token_example :
    (code : List ℕ) × (format_pairing_token 0x0102_0304 ≡ value code)
    × (length code ≡ 5)
    × (parse_pairing_token ascii code ≡ value 0x0102_0304)
parse_token-format_token_example =
    parse_token-format_token ascii ascii-IsUnicode 0x0102_0304 (omega arith)

parsed_code : parse_pairing_token ascii (codes " ab-c9z\n") ≡ value 35_831
unfolding parse_pairing_token pairing_values flat_map lookup
parsed_code = refl

format_token-parse_token_example :
    (35_831 ≤ pairing_token_max)
    × (format_pairing_token 35_831 ≡ value (normalize ascii (codes " ab-c9z\n")))
format_token-parse_token_example = format_token-parse_token ascii (codes " ab-c9z\n") parsed_code

decode_packet-IsInRange_example : IsInRange packet
decode_packet-IsInRange_example =
    decode_packet-IsInRange datagram packet datagram_bytes decoded_datagram
