-- ===== src/Usb/Handshake.antt =====
-- `_reply_to_usbhostfs_hello` and `perform_usbhostfs_handshake` of
-- pc-server/pc_server/usb_transport.py.
pub mod Laws
use niw_pspto_pc.Base.{
  ℕ, zero, suc, Bool, true, false, not, ◌||◌, ◌&&◌, List, [], ◌∷◌, Option, none, some, ◌==◌, length,
  if◌then◌else◌,
}
use niw_pspto_pc.Struct.{Order, unpack}
use niw_pspto_pc.Protocol.{or_struct_error}
use niw_pspto_pc.Usb.Frame.{
  usbhostfs_magic, usbhostfs_command_endpoint, usbhostfs_input_endpoint, usbhostfs_read_size,
  usbhostfs_command_header, usbhostfs_hello_command, usbhostfs_probe, usbhostfs_hello,
  usbhostfs_handshake_attempts, is_usbhostfs_async_frame,
}
use niw_pspto_pc.Usb.Device.{
  UsbDevice, M, ◌>>=◌, ◌>>◌, pure, disconnect_unless, or_escape, bad_hello_size, bad_hello,
  short_hello_write, short_probe_write, hello_timed_out, disconnects, escapes, read, write,
}

abbrev pub is_empty : List ℕ → Bool
is_empty [] = true
is_empty (b ∷ bytes) = false

-- The test on the unpacked fields of a HELLO.
unfoldable pub is_hello : List ℕ → Bool
is_hello (magic ∷ command ∷ extra_length ∷ []) =
    magic == usbhostfs_magic && (command == usbhostfs_hello_command && extra_length == 0)
is_hello _ = false

module _ {S : Type 0} (device : UsbDevice) where
  unfoldable pub reply_to_usbhostfs_hello : List ℕ → M S (Unit {0})
  unfolding is_hello
  reply_to_usbhostfs_hello bytes = do
    disconnect_unless (length bytes == length usbhostfs_hello) (bad_hello_size (length bytes))
    fields ← or_escape (or_struct_error (unpack Order.little usbhostfs_command_header bytes))
    disconnect_unless (is_hello fields) bad_hello
    written ← write device usbhostfs_command_endpoint usbhostfs_hello 1000
    disconnect_unless (written == length usbhostfs_hello) short_hello_write

  -- The loop over the attempts.
  unfoldable pub await_hello : ℕ → M S (Option (List ℕ))
  await_hello zero w = (disconnects hello_timed_out, w)
  await_hello (suc attempts) w =
      (do
        bytes ← read device usbhostfs_input_endpoint usbhostfs_read_size 250
        let again = await_hello attempts
        if is_empty bytes then again else reply_to_usbhostfs_hello bytes >> pure none)
        w

  -- A transfer that was waiting: a frame of an active session, or a HELLO.
  unfoldable pub take_existing : List ℕ → M S (Option (List ℕ))
  unfolding reply_to_usbhostfs_hello
  take_existing bytes = do
    is_frame ← or_escape (is_usbhostfs_async_frame bytes)
    if is_frame then pure (some bytes) else reply_to_usbhostfs_hello bytes >> pure none

  unfoldable pub send_probe : M S (Option (List ℕ))
  unfolding await_hello
  send_probe = do
    written ← write device usbhostfs_command_endpoint usbhostfs_probe 1000
    disconnect_unless (written == length usbhostfs_probe) short_probe_write
    await_hello usbhostfs_handshake_attempts

  unfoldable pub perform_usbhostfs_handshake : M S (Option (List ℕ))
  unfolding take_existing send_probe
  perform_usbhostfs_handshake = do
    existing ← read device usbhostfs_input_endpoint usbhostfs_read_size 100
    if is_empty existing then send_probe else take_existing existing
