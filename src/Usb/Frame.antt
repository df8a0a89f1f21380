-- ===== src/Usb/Frame.antt =====
-- The frames of USBHostFS: constants, `decode_async_payload`, `encode_async_payload` and
-- `_is_usbhostfs_async_frame` of pc-server/pc_server/usb_transport.py. `struct.error` is
-- `bad_struct`.
pub mod Laws
use niw_pspto_pc.Base.{
  ℕ, Bool, true, false, not, ◌||◌, ◌&&◌, List, [], ◌∷◌, ◌++◌, Option, none, some, ltb, ◌==◌, length,
  drop, if◌then◌else◌,
}
use niw_pspto_pc.Struct.{Order, Format, size, pack, unpack_from}
use niw_pspto_pc.Protocol.{Result, ok, err, bad_struct, or_struct_error, ◌>>=◌}

abbrev pub usbhostfs_magic : ℕ
usbhostfs_magic = 0x782F_0812

abbrev pub usbhostfs_async_magic : ℕ
usbhostfs_async_magic = 0x782F_0813

abbrev pub usbhostfs_async_channel : ℕ
usbhostfs_async_channel = 4

abbrev pub usbhostfs_command_endpoint : ℕ
usbhostfs_command_endpoint = 0x02

abbrev pub usbhostfs_async_endpoint : ℕ
usbhostfs_async_endpoint = 0x03

abbrev pub usbhostfs_input_endpoint : ℕ
usbhostfs_input_endpoint = 0x81

abbrev pub usbhostfs_read_size : ℕ
usbhostfs_read_size = 512

-- "<II" and "<III"
abbrev pub usbhostfs_header : Format
usbhostfs_header = 4 ∷ 4 ∷ []

abbrev pub usbhostfs_command_header : Format
usbhostfs_command_header = 4 ∷ 4 ∷ 4 ∷ []

abbrev pub usbhostfs_hello_command : ℕ
usbhostfs_hello_command = 0x8FFC_0000

-- `struct.pack("<I", USBHOSTFS_MAGIC)` and the packed HELLO command, written out.
abbrev pub usbhostfs_probe : List ℕ
usbhostfs_probe = 0x12 ∷ 0x08 ∷ 0x2F ∷ 0x78 ∷ []

abbrev pub usbhostfs_hello : List ℕ
usbhostfs_hello =
    0x12 ∷ 0x08 ∷ 0x2F ∷ 0x78 ∷ 0x00 ∷ 0x00 ∷ 0xFC ∷ 0x8F ∷ 0x00 ∷ 0x00 ∷ 0x00 ∷ 0x00 ∷ []

abbrev pub usbhostfs_handshake_attempts : ℕ
usbhostfs_handshake_attempts = 10

-- The payload behind the header, if the fields are those of the channel.
unfoldable pub pick_payload : List ℕ → List ℕ → Result (Option (List ℕ))
pick_payload bytes (magic ∷ channel ∷ []) =
    if not (magic == usbhostfs_async_magic) || not (channel == usbhostfs_async_channel)
    then ok none
    else ok (some (drop (size usbhostfs_header) bytes))
pick_payload bytes _ = err bad_struct

unfoldable pub decode_async_payload : List ℕ → Result (Option (List ℕ))
unfolding pick_payload
decode_async_payload bytes =
    if ltb (length bytes) (size usbhostfs_header)
    then ok none
    else or_struct_error (unpack_from Order.little usbhostfs_header bytes) >>= pick_payload bytes

unfoldable pub encode_async_payload : List ℕ → Result (List ℕ)
encode_async_payload payload = do
  header ←
      or_struct_error
        (pack Order.little usbhostfs_header (usbhostfs_async_magic ∷ usbhostfs_async_channel ∷ []))
  ok (header ++ payload)

-- `[0]` of the unpacked header.
unfoldable pub has_async_magic : List ℕ → Result Bool
has_async_magic (magic ∷ channel ∷ []) = ok (magic == usbhostfs_async_magic)
has_async_magic _ = err bad_struct

unfoldable pub is_usbhostfs_async_frame : List ℕ → Result Bool
unfolding has_async_magic
is_usbhostfs_async_frame bytes =
    if ltb (length bytes) (size usbhostfs_header)
    then ok false
    else or_struct_error (unpack_from Order.little usbhostfs_header bytes) >>= has_async_magic
