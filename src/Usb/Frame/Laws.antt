-- ===== src/Usb/Frame/Laws.antt =====
-- The frames of the wired transport carry every payload, and only well-formed bytes are taken.
use niw_pspto_pc.Base.{
  ℕ, zero, suc, ◌+◌, ◌≡◌, ◌≢◌, refl, sym, ap, ◌∙◌, List, [], ◌∷◌, ◌++◌, some, ltb, length, drop,
  All, Bool-cases, inl, inr, arith,
}
use niw_pspto_pc.Struct.{IsByte, Order, size, pack}
use niw_pspto_pc.Struct.RoundTrip.{length-pack, unpack_from-pack}
use niw_pspto_pc.Struct.Canonical.{pack-unpack_from, unpack_from_total}
use niw_pspto_pc.Protocol.{ok, err, bad_struct}
use niw_pspto_pc.Usb.Frame.{
  usbhostfs_magic, usbhostfs_async_magic, usbhostfs_async_channel, usbhostfs_header,
  usbhostfs_command_header, usbhostfs_hello_command, usbhostfs_probe, usbhostfs_hello, pick_payload,
  decode_async_payload, encode_async_payload,
}

abbrev channel_fields : List ℕ
channel_fields = usbhostfs_async_magic ∷ usbhostfs_async_channel ∷ []

abbrev pub async_header : List ℕ
async_header = 0x13 ∷ 0x08 ∷ 0x2F ∷ 0x78 ∷ 4 ∷ 0 ∷ 0 ∷ 0 ∷ []

packed_header : pack Order.little usbhostfs_header channel_fields ≡ some async_header
unfolding pack
packed_header = refl

-- The constants are what `struct.pack` writes for them.
packed_probe : pack Order.little (4 ∷ []) (usbhostfs_magic ∷ []) ≡ some usbhostfs_probe
unfolding pack
packed_probe = refl

pub packed_hello :
    pack Order.little usbhostfs_command_header (usbhostfs_magic ∷ usbhostfs_hello_command ∷ 0 ∷ [])
    ≡ some usbhostfs_hello
unfolding pack
packed_hello = refl

pub encode_async_payload_lem :
    (payload : List ℕ) → encode_async_payload payload ≡ ok (async_header ++ payload)
unfolding encode_async_payload
encode_async_payload_lem payload = ground (arith, packed_header)

drop-append : (front rest : List ℕ) (n : ℕ) → length front ≡ n → drop n (front ++ rest) ≡ rest
drop-append [] rest zero h = refl
drop-append [] rest (suc n) h = absurd (omega arith)
drop-append (x ∷ front) rest zero h = absurd (omega arith)
drop-append (x ∷ front) rest (suc n) h = drop-append front rest n (omega arith)

-- Every payload is encoded, in 8 more bytes, and decodes to itself.
pub decode_async_payload-encode_async_payload :
    (payload : List ℕ)
    → (bytes : List ℕ) × (encode_async_payload payload ≡ ok bytes)
      × (length bytes ≡ length payload + 8)
      × (decode_async_payload bytes ≡ ok (some payload))
unfolding decode_async_payload
decode_async_payload-encode_async_payload payload =
    let read =
      unpack_from-pack Order.little usbhostfs_header channel_fields payload packed_header in
    (async_header ++ payload, encode_async_payload_lem payload, omega arith, ground (arith, read))

pick_payload_parts :
    (bytes vs payload : List ℕ)
    → pick_payload bytes vs ≡ ok (some payload)
    → (vs ≡ channel_fields) × (payload ≡ drop 8 bytes)
unfolding pick_payload
pick_payload_parts bytes (magic ∷ channel ∷ []) payload h = ground arith
pick_payload_parts bytes vs payload h = cc

-- Bytes from which a payload is taken are the encoding of that payload.
pub encode_async_payload-decode_async_payload :
    (bytes payload : List ℕ)
    → All IsByte bytes
    → decode_async_payload bytes ≡ ok (some payload)
    → encode_async_payload payload ≡ ok bytes
unfolding decode_async_payload
encode_async_payload-decode_async_payload bytes payload h e =
    elim (Bool-cases (ltb (length bytes) (size usbhostfs_header))) [
      | inl short ↦ absurd (ground arith)
      | inr long ↦
          let (vs, u, n) = unpack_from_total Order.little usbhostfs_header bytes (ground arith) in
          let picked : pick_payload bytes vs ≡ ok (some payload) = ground arith in
          let (fields, rest) = pick_payload_parts bytes vs payload picked in
          let (front, tail, whole, packed) =
            pack-unpack_from Order.little usbhostfs_header bytes h u in
          let header : front ≡ async_header = ground (arith, packed_header) in
          let back : drop 8 (front ++ tail) ≡ tail =
            drop-append front tail 8 (length-pack Order.little usbhostfs_header vs packed) in
          let same : payload ≡ tail = rest ∙ ap (λ (t : List ℕ). drop 8 t) whole ∙ back in
          encode_async_payload_lem payload
          ∙ ap ok (
              ap (λ (t : List ℕ). async_header ++ t) same
              ∙ sym (whole ∙ ap (λ (t : List ℕ). t ++ tail) header))
    ]

pick_payload-ne-bad_struct :
    (bytes vs : List ℕ) → length vs ≡ 2 → pick_payload bytes vs ≢ err bad_struct
unfolding pick_payload
pick_payload-ne-bad_struct bytes (magic ∷ channel ∷ []) n h = ground arith
pick_payload-ne-bad_struct bytes vs n h = absurd (omega arith)

-- No bytes make `decode_async_payload` raise `struct.error`.
pub decode_async_payload-ne-bad_struct :
    (bytes : List ℕ) → decode_async_payload bytes ≢ err bad_struct
unfolding decode_async_payload
decode_async_payload-ne-bad_struct bytes h =
    elim (Bool-cases (ltb (length bytes) (size usbhostfs_header))) [
      | inl short ↦ absurd (ground arith)
      | inr long ↦
          let (vs, u, n) = unpack_from_total Order.little usbhostfs_header bytes (ground arith) in
          pick_payload-ne-bad_struct bytes vs n (ground arith)
    ]
