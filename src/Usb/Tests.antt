-- ===== src/Usb/Tests.antt =====
-- A device that greets, sends one payload and is unplugged.
use niw_pspto_pc.Base.{
  ℕ, ◌≤◌, ◌≡◌, refl, true, false, List, [], ◌∷◌, none, some, All, length, ◌+◌, arith,
}
use mathlib.Core.Path.{subst}
use niw_pspto_pc.Protocol.{ok}
use niw_pspto_pc.Struct.{IsByte, unpack, unpack_from, pack}
use niw_pspto_pc.Receiver.State.{Receiver, Config, Env, Clock, answers, address_eq}
use niw_pspto_pc.Receiver.Run.{empty_receiver}
use niw_pspto_pc.Usb.Source.Receiver.{usb_callbacks}
use niw_pspto_pc.Usb.Source.Deliveries.{arrived, delivered}
use niw_pspto_pc.Usb.Source.Payloads.{run_session_delivers}
use niw_pspto_pc.Usb.Frame.{usbhostfs_hello, decode_async_payload, encode_async_payload}
use niw_pspto_pc.Usb.Device.{
  UsbDevice, Answer, gives, fails, Io, open_device, write_to, call_connected, World, returns, ◌>>=◌,
  pure, read, write, disconnect_unless, or_escape,
}
use niw_pspto_pc.Usb.Device.Logic.{AtMost}
use niw_pspto_pc.Usb.Handshake.{perform_usbhostfs_handshake}
use niw_pspto_pc.Usb.Handshake.Laws.{
  GivesBytes, Greeted, perform_usbhostfs_handshake-AtMost, perform_usbhostfs_handshake-Greeted,
}
use niw_pspto_pc.Usb.Source.{
  Callbacks, done, sends, Attempt, unavailable, no_device, found_device, run_session, run,
  new_source,
}
use niw_pspto_pc.Usb.Backend.{UsbLibrary, pyusb_open, attempt_of}
use niw_pspto_pc.Usb.Source.Laws.{stage_of, between, repairs}
use niw_pspto_pc.Usb.Source.Sessions.{run_closes}

abbrev frame : List ℕ
frame = 0x13 ∷ 0x08 ∷ 0x2F ∷ 0x78 ∷ 4 ∷ 0 ∷ 0 ∷ 0 ∷ 9 ∷ 200 ∷ []

-- Nothing waits; the probe is answered by a HELLO; after the handshake comes a frame; then nothing.
unfoldable device_answer : List Io → Answer (List ℕ)
device_answer [] = gives []
device_answer (write_to endpoint bytes timeout answer ∷ trace) = gives usbhostfs_hello
device_answer (call_connected ∷ trace) = gives frame
device_answer (open_device ∷ trace) = gives []
device_answer trace = fails (record { errno = some 19; text = [] })

abbrev device : UsbDevice
device = record {
  read_answer = device_answer;
  write_answer = λ trace bytes. gives (length bytes);
  lower = λ text. text;
}

frame-IsByte : All IsByte frame
frame-IsByte = ground arith

hello-IsByte : All IsByte usbhostfs_hello
hello-IsByte = ground arith

device-GivesBytes : GivesBytes device
unfolding device_answer
device-GivesBytes [] bytes e = let same : [] ≡ bytes = cc in subst (All IsByte) same tt
device-GivesBytes (write_to endpoint sent timeout answer ∷ trace) bytes e =
    let same : usbhostfs_hello ≡ bytes = cc in subst (All IsByte) same hello-IsByte
device-GivesBytes (call_connected ∷ trace) bytes e =
    let same : frame ≡ bytes = cc in subst (All IsByte) same frame-IsByte
device-GivesBytes (open_device ∷ trace) bytes e =
    let same : [] ≡ bytes = cc in subst (All IsByte) same tt
device-GivesBytes trace bytes e = cc

-- The first payload is answered by one byte; what the device does is counted.
abbrev callbacks : Callbacks ℕ
callbacks = record {
  on_packet = λ payload s. sends (7 ∷ []) (λ sent. done (s + 1));
  on_connected = λ s. some s;
  on_disconnected = λ s. some s;
}

abbrev fresh : World ℕ
fresh = record { trace = []; closed = false; user = 0 }

abbrev attempts : List Attempt
attempts =
    unavailable true ∷ no_device ∷ found_device device 5 false ∷ found_device device 0 true ∷ []

two_payloads : (run callbacks attempts (new_source 0)).world.user ≡ 1
unfolding run device_answer ◌>>=◌ read write disconnect_unless or_escape unpack pure
    decode_async_payload encode_async_payload pack
two_payloads = refl

greeted :
    perform_usbhostfs_handshake device fresh
    ≡ (returns none, (perform_usbhostfs_handshake device fresh).1)
unfolding perform_usbhostfs_handshake device_answer ◌>>=◌ read write disconnect_unless or_escape
    unpack pure
greeted = refl

decoded : decode_async_payload frame ≡ ok (some (9 ∷ 200 ∷ []))
unfolding decode_async_payload unpack_from
decoded = refl

perform_usbhostfs_handshake-AtMost_example : AtMost {S = ℕ} 13 (perform_usbhostfs_handshake device)
perform_usbhostfs_handshake-AtMost_example = perform_usbhostfs_handshake-AtMost device

perform_usbhostfs_handshake-Greeted_example :
    Greeted fresh.trace none (perform_usbhostfs_handshake device fresh).1.trace
perform_usbhostfs_handshake-Greeted_example =
    perform_usbhostfs_handshake-Greeted device fresh (perform_usbhostfs_handshake device fresh).1
      device-GivesBytes none greeted

run_closes_example :
    (stage_of (run callbacks attempts (new_source 0)).world.trace ≡ between)
    × (repairs (run callbacks attempts (new_source 0)).world.trace ≤ 1)
run_closes_example = run_closes callbacks attempts 0

-- An input packet on the wire.
abbrev packet_frame : List ℕ
packet_frame =
    0x13 ∷ 0x08 ∷ 0x2F ∷ 0x78 ∷ 4 ∷ 0 ∷ 0 ∷ 0 ∷ 0x50 ∷ 0x53 ∷ 0x50 ∷ 0x49 ∷ 0 ∷ 2 ∷ 0 ∷ 32 ∷ 0 ∷ 0
    ∷ 0 ∷ 1 ∷ 0 ∷ 0 ∷ 0 ∷ 0x10 ∷ 128 ∷ 128 ∷ 0 ∷ 0 ∷ 0 ∷ 0 ∷ 0 ∷ 7 ∷ 0 ∷ 0 ∷ 0 ∷ 0 ∷ 0 ∷ 0 ∷ 0 ∷ 5
    ∷ []

unfoldable controller_answer : List Io → Answer (List ℕ)
unfolding device_answer
controller_answer (call_connected ∷ trace) = gives packet_frame
controller_answer trace = device_answer trace

abbrev controller : UsbDevice
controller = record device { read_answer = controller_answer }

abbrev config : Config
config = record {
  has_display = true;
  allowed_hosts = none;
  require_pairing = true;
  active_client_timeout = 1_750_000;
  client_retention = 10_000_000;
}

abbrev env : Env
env = record {
  on_packet = some (λ s. true);
  on_diagnostic = some (λ s. true);
  on_stage = some (λ e. true);
  pairing_ack_allowed = some (answers true);
  ack_delivered = λ ack. true;
}

abbrev clock : Clock
clock = record {
  received_at = 2_000_000;
  logged_at = 2_000_010;
  acked_at = 2_000_020;
  epoch_us = 1_700_000_000_000_000;
}

-- The source with its receiver behind it.
abbrev wired : Callbacks Receiver
wired = usb_callbacks (λ r. env) (λ r. clock)

abbrev unplugged : World Receiver
unplugged = record { trace = []; closed = true; user = empty_receiver config none }

abbrev plugged : World Receiver
plugged = record unplugged { trace = open_device ∷ []; closed = false }

packet_frame-IsByte : All IsByte packet_frame
packet_frame-IsByte = ground arith

controller-GivesBytes : GivesBytes controller
unfolding controller_answer
controller-GivesBytes (call_connected ∷ trace) bytes e =
    let same : packet_frame ≡ bytes = cc in subst (All IsByte) same packet_frame-IsByte
controller-GivesBytes trace bytes e = device-GivesBytes trace bytes e

wired_greeted :
    perform_usbhostfs_handshake controller plugged
    ≡ (returns none, (perform_usbhostfs_handshake controller plugged).1)
unfolding perform_usbhostfs_handshake controller_answer ◌>>=◌ read write disconnect_unless or_escape
    unpack pure
wired_greeted = refl

wired_connected :
    wired.on_connected (perform_usbhostfs_handshake controller plugged).1.user
    ≡ some (perform_usbhostfs_handshake controller plugged).1.user
unfolding usb_callbacks
wired_connected = refl

run_session_delivers_example :
    delivered (run_session wired controller 3 false unplugged).0.trace
    ≡ arrived (run_session wired controller 3 false unplugged).0.trace
run_session_delivers_example =
    run_session_delivers controller controller-GivesBytes wired 3 false unplugged
      (perform_usbhostfs_handshake controller plugged).1 none
      (perform_usbhostfs_handshake controller plugged).1.user wired_greeted wired_connected

-- The one frame of the device above.
delivered_once :
    delivered (run_session callbacks device 5 false fresh).0.trace ≡ (9 ∷ 200 ∷ []) ∷ []
unfolding run_session device_answer ◌>>=◌ read write disconnect_unless or_escape unpack pure
    decode_async_payload encode_async_payload pack
delivered_once = refl

-- A device that is found and cannot be claimed.
abbrev stuck_library : UsbLibrary
stuck_library = record {
  imports = true;
  finds = some true;
  configures = true;
  claims = false;
  disposes = true;
  needs_repair = some true;
}

stuck_attempt : attempt_of device 0 false (pyusb_open stuck_library).0 ≡ unavailable true
unfolding attempt_of pyusb_open
stuck_attempt = refl
