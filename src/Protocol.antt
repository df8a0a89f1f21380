-- ===== src/Protocol.antt =====
-- pc-server/pc_server/protocol.py: the input packet, its validation, the readiness ACK.
-- Python's integers are unbounded; the fields of a packet are never negative here, so the tests
-- `0 <= x` of the source are left to the type ℕ.
pub mod Packet
pub mod Accept
pub mod Ack
pub mod Reject
pub mod Bounds
pub mod Pairing
mod Tests
use niw_pspto_pc.Base.{
  ℕ, suc, ◌+◌, ◌*◌, ◌-◌, ◌^◌, Bool, not, List, [], ◌∷◌, Option, none, some, bit_and, ltb, leb,
  length, Eq, ◌↔◌, ◌≡◌, arith, ◌==◌, ◌&&◌, true, false, if◌then◌else◌,
}
use niw_pspto_pc.Struct.{Order, Format, size, pack, unpack_from, unpack}

abbrev pub input_magic : ℕ
input_magic = 0x5053_5049

abbrev pub input_version : ℕ
input_version = 2

abbrev pub legacy_input_version : ℕ
legacy_input_version = 1

-- "!IHH", "!IHHIIBBHQ", "!IHHIIBBHIQ" and "!IHHI"
abbrev pub header_struct : Format
header_struct = 4 ∷ 2 ∷ 2 ∷ []

abbrev pub v1_packet_struct : Format
v1_packet_struct = 4 ∷ 2 ∷ 2 ∷ 4 ∷ 4 ∷ 1 ∷ 1 ∷ 2 ∷ 8 ∷ []

abbrev pub packet_struct : Format
packet_struct = 4 ∷ 2 ∷ 2 ∷ 4 ∷ 4 ∷ 1 ∷ 1 ∷ 2 ∷ 4 ∷ 8 ∷ []

abbrev pub v1_packet_size : ℕ
v1_packet_size = size v1_packet_struct

abbrev pub packet_size : ℕ
packet_size = size packet_struct

abbrev pub pairing_ack_magic : ℕ
pairing_ack_magic = 0x5053_5041

abbrev pub pairing_ack_version : ℕ
pairing_ack_version = 1

abbrev pub pairing_ack_struct : Format
pairing_ack_struct = 4 ∷ 2 ∷ 2 ∷ 4 ∷ []

abbrev pub pairing_ack_size : ℕ
pairing_ack_size = size pairing_ack_struct

abbrev pub pairing_token_max : ℕ
pairing_token_max = 2 ^ 25 - 1

-- The sum of the values of `Buttons`.
abbrev pub known_button_mask : ℕ
known_button_mask = 2 ^ 12 - 1

-- The exceptions of the decoders, with the numbers that their messages show; the two length
-- errors of `decode_packet` have messages of their own. `bad_struct` is `struct.error`.
pub data PacketError : Type 0 where
  short_header : ℕ → PacketError
  packet_length : ℕ → ℕ → PacketError
  ack_length : ℕ → PacketError
  invalid_magic : ℕ → PacketError
  unsupported_version : ℕ → PacketError
  invalid_packet_size : ℕ → ℕ → PacketError
  invalid_reserved_field : ℕ → PacketError
  token_range : PacketError
  bad_struct : PacketError

abbrev pub error_beq : PacketError → PacketError → Bool
error_beq (short_header a) (short_header b) = a == b
error_beq (packet_length a c) (packet_length b d) = (a == b) && (c == d)
error_beq (ack_length a) (ack_length b) = a == b
error_beq (invalid_magic a) (invalid_magic b) = a == b
error_beq (unsupported_version a) (unsupported_version b) = a == b
error_beq (invalid_packet_size a c) (invalid_packet_size b d) = (a == b) && (c == d)
error_beq (invalid_reserved_field a) (invalid_reserved_field b) = a == b
error_beq token_range token_range = true
error_beq bad_struct bad_struct = true
error_beq _ _ = false

pub error_beq_iff : (a b : PacketError) → (error_beq a b ≡ true) ↔ (a ≡ b)
error_beq_iff (short_header a) b = ground arith
error_beq_iff a b = ground arith

instance abbrev pub packet_error_eq : Eq PacketError
packet_error_eq = record { beq = error_beq; beq_iff = error_beq_iff }

-- What a decoder returns, or the exception that leaves it.
pub data Result {ℓ} (T : Type ℓ) : Type ℓ where
  err : PacketError → Result T
  ok : T → Result T

infixl 5 ◌>>=◌ ◌>>◌
abbrev pub ◌>>=◌ {ℓ κ} : {T : Type ℓ} {S : Type κ} → Result T → (T → Result S) → Result S
err raised >>= rest = err raised
ok v >>= rest = rest v

abbrev pub ◌>>◌ {ℓ} : {S : Type ℓ} → Result (Unit {0}) → Result S → Result S
check >> rest = check >>= λ _. rest

-- `if c: raise e`
abbrev pub raise_if : Bool → PacketError → Result (Unit {0})
raise_if true e = err e
raise_if false e = ok tt

abbrev pub or_struct_error {ℓ} : {A : Type ℓ} → Option A → Result A
or_struct_error none = err bad_struct
or_struct_error (some a) = ok a

pub record InputPacket : Type 0 where
  pub sequence : ℕ
  pub buttons : ℕ
  pub analog_x : ℕ
  pub analog_y : ℕ
  pub timestamp_us : ℕ
  pub reserved : ℕ
  pub session_token : Option ℕ

unfoldable pub pressed_buttons : InputPacket → ℕ
pressed_buttons p = bit_and p.buttons known_button_mask

-- `HEADER_STRUCT.unpack_from(data)`: magic, version and packet_size.
unfoldable pub unpack_header : List ℕ → Result (ℕ × ℕ × ℕ)
unpack_header bytes = elim (unpack_from Order.big header_struct bytes) [
  | some (magic ∷ version ∷ declared ∷ []) ↦ ok (magic, version, declared)
  | _ ↦ err bad_struct
]

-- The tuple assignment of the version 1 branch, and the checks behind it.
unfoldable pub read_v1 : List ℕ → Result InputPacket
read_v1 (_ ∷ _ ∷ _ ∷ sequence ∷ buttons ∷ x ∷ y ∷ reserved ∷ timestamp ∷ []) = do
  raise_if (not (reserved == 0)) (invalid_reserved_field reserved)
  ok (record {
    sequence = sequence;
    buttons = buttons;
    analog_x = x;
    analog_y = y;
    timestamp_us = timestamp;
    reserved = reserved;
    session_token = none;
  })
read_v1 _ = err bad_struct

-- The same for version 2, which has the session token.
unfoldable pub read_v2 : List ℕ → Result InputPacket
read_v2 (_ ∷ _ ∷ _ ∷ sequence ∷ buttons ∷ x ∷ y ∷ reserved ∷ token ∷ timestamp ∷ []) = do
  raise_if (ltb pairing_token_max token) token_range
  raise_if (not (reserved == 0)) (invalid_reserved_field reserved)
  ok (record {
    sequence = sequence;
    buttons = buttons;
    analog_x = x;
    analog_y = y;
    timestamp_us = timestamp;
    reserved = reserved;
    session_token = some token;
  })
read_v2 _ = err bad_struct

-- From the choice of the format on: the size checks, `unpack`, and the fields.
unfoldable pub decode_body :
    ℕ → ℕ → Format → (List ℕ → Result InputPacket) → List ℕ → Result InputPacket
decode_body version declared format read bytes = do
  raise_if (not (declared == size format)) (invalid_packet_size declared version)
  raise_if (not (length bytes == size format)) (packet_length (length bytes) version)
  fields ← or_struct_error (unpack Order.big format bytes)
  read fields

unfoldable pub decode_packet : List ℕ → Result InputPacket
unfolding unpack_header decode_body read_v1 read_v2
decode_packet bytes = do
  raise_if (ltb (length bytes) (size header_struct)) (short_header (length bytes))
  (magic, version, declared) ← unpack_header bytes
  raise_if (not (magic == input_magic)) (invalid_magic magic)
  if version == legacy_input_version
      then decode_body version declared v1_packet_struct read_v1 bytes
      else if version == input_version
      then decode_body version declared packet_struct read_v2 bytes
      else err (unsupported_version version)

-- The `ValueError`s of the encoders, and `struct.error` for a field that does not fit.
pub data EncodeError : Type 0 where
  missing_token token_too_large reserved_not_zero field_range : EncodeError

pub data Encoded : Type 0 where
  encoded : List ℕ → Encoded
  raises : EncodeError → Encoded

abbrev pub or_field_range : Option (List ℕ) → Encoded
or_field_range none = raises field_range
or_field_range (some bs) = encoded bs

unfoldable pub encode_packet : InputPacket → Encoded
encode_packet p = elim p.session_token [
  | none ↦ raises missing_token
  | some token ↦
      if ltb pairing_token_max token
      then raises token_too_large
      else if not (p.reserved == 0)
      then raises reserved_not_zero
      else or_field_range (
          pack Order.big packet_struct (
            input_magic ∷ input_version ∷ packet_size ∷ p.sequence ∷ p.buttons ∷ p.analog_x
            ∷ p.analog_y ∷ p.reserved ∷ token ∷ p.timestamp_us ∷ []))
]

unfoldable pub encode_pairing_ack : ℕ → Encoded
encode_pairing_ack token =
    if ltb pairing_token_max token
    then raises token_too_large
    else or_field_range (
        pack Order.big pairing_ack_struct
          (pairing_ack_magic ∷ pairing_ack_version ∷ pairing_ack_size ∷ token ∷ []))

-- The checks of `decode_pairing_ack` on the unpacked fields.
unfoldable pub check_ack : List ℕ → Result ℕ
check_ack (magic ∷ version ∷ declared ∷ token ∷ []) = do
  raise_if (not (magic == pairing_ack_magic)) (invalid_magic magic)
  raise_if (not (version == pairing_ack_version)) (unsupported_version version)
  raise_if (not (declared == pairing_ack_size)) (invalid_packet_size declared version)
  raise_if (ltb pairing_token_max token) token_range
  ok token
check_ack _ = err bad_struct

unfoldable pub decode_pairing_ack : List ℕ → Result ℕ
unfolding check_ack
decode_pairing_ack bytes = do
  raise_if (not (length bytes == pairing_ack_size)) (ack_length (length bytes))
  fields ← or_struct_error (unpack Order.big pairing_ack_struct bytes)
  check_ack fields
