-- ===== src/Receiver/Process.antt =====
-- `_process_data` of pc-server/pc_server/receiver.py.
pub mod Consistent
pub mod Data
use niw_pspto_pc.Base.{
  ℕ, ◌+◌, Bool, true, false, not, ◌&&◌, ◌||◌, String, List, [], ◌∷◌, Option, none, some, ltb,
  equals, option_eq, nat_eq, string_eq, if◌then◌else◌,
}
use niw_pspto_pc.Base.Dict.{lookup, insert, member}
use niw_pspto_pc.Protocol.{
  InputPacket, PacketError, bad_struct, ok, err, decode_packet, encode_pairing_ack, encoded, raises,
}
use niw_pspto_pc.Receiver.Cache.{remember}
use niw_pspto_pc.Receiver.State.{
  Receiver, ReceiverSnapshot, TransportKind, wifi, usb, Address, address_eq, LogKey, decode_key,
  datagram_received, valid_packet, code_matched, ack_sent, log_not_allowed, send_ack,
  pairing_ack_interval, Env, Clock,
}
use niw_pspto_pc.Receiver.Effects.{
  emit, emit_if, break_line, log_rejected, emit_stage, pairing_ack_is_allowed,
}
use niw_pspto_pc.Receiver.Handle.{Handled, ignored, handled, raised, is_wifi, handle_packet}

-- The branch of a datagram that does not decode.
unfoldable pub reject_datagram : Clock → PacketError → Address → TransportKind → Receiver → Receiver
reject_datagram clock e address transport r =
    log_rejected (decode_key transport address.0 e) clock.logged_at
      (break_line (record r { rejected_datagrams = r.rejected_datagrams + 1 }))

-- Whether the allowlist shuts out the sender.
unfoldable pub is_not_allowed : Receiver → Address → TransportKind → Bool
is_not_allowed r address transport =
    is_wifi transport
    && elim r.config.allowed_hosts [ none ↦ false | some hosts ↦ not (member address.0 hosts) ]

unfoldable pub reject_host : Clock → Address → Receiver → Receiver
reject_host clock address r =
    let (hosts, should_log) = remember r.rejected_hosts address.0 clock.received_at in
    emit_if should_log (log_not_allowed address)
      (record r { rejected_datagrams = r.rejected_datagrams + 1; rejected_hosts = hosts })

-- The token to acknowledge, if the packet is authorized: over USB the token that it carries, over
-- Wi-Fi the configured one if the packet has it.
unfoldable pub authorized_token : Receiver → InputPacket → TransportKind → Option ℕ
authorized_token r packet usb = packet.session_token
authorized_token r packet wifi = elim r.pairing_token [
  | none ↦ none
  | some token ↦ if equals packet.session_token (some token) then some token else none
]

-- Whether the last ACK to the address is younger than the interval.
unfoldable pub is_recently_acked : Receiver → Address → ℕ → Bool
is_recently_acked r address now = elim (lookup address r.last_ack_sent) [
  | none ↦ false
  | some last ↦ ltb now (last + pairing_ack_interval)
]

-- The `try`/`else` round `send_ack`.
unfoldable pub deliver_ack :
    Env → Clock → ReceiverSnapshot → Address → TransportKind → List ℕ → Receiver → Receiver
deliver_ack env clock s address transport ack r =
    let sent = emit (send_ack transport address ack) r in
    if env.ack_delivered ack
    then emit_stage env ack_sent address transport
        (record sent { last_ack_sent = insert address clock.acked_at sent.last_ack_sent })
    else sent

-- The ACK of an accepted packet, from the test of `_pairing_ack_is_allowed` on.
unfoldable pub acknowledge :
    Env → Clock → ReceiverSnapshot → Address → TransportKind → ℕ → Receiver → Receiver × Handled
unfolding is_recently_acked deliver_ack
acknowledge env clock s address transport token r =
    let (asked, allowed) = pairing_ack_is_allowed env r in
    if not allowed || is_recently_acked asked address clock.acked_at
    then (asked, handled s)
    else elim (encode_pairing_ack token) [
      | raises _ ↦ (asked, raised)
      | encoded ack ↦ (deliver_ack env clock s address transport ack asked, handled s)
    ]

-- What follows an accepted packet.
unfoldable pub conclude :
    Env
    → Clock
    → InputPacket
    → ReceiverSnapshot
    → Address
    → TransportKind
    → Receiver
    → Receiver × Handled
unfolding authorized_token acknowledge
conclude env clock packet s address transport r =
    let counted = record r { valid_packets = r.valid_packets + 1 } in
    elim (authorized_token counted packet transport) [
      | none ↦ (counted, handled s)
      | some token ↦
          let matched = emit_stage env code_matched address transport counted in
          if s.is_active_client
          then acknowledge env clock s address transport token matched
          else (matched, handled s)
    ]

-- A packet that decodes and whose sender is allowed.
unfoldable pub process_packet :
    Env → Clock → InputPacket → Address → TransportKind → Receiver → Receiver × Handled
unfolding conclude
process_packet env clock packet address transport r =
    let valid = emit_stage env valid_packet address transport r in
    let (after, outcome) =
      handle_packet env clock packet address transport clock.received_at valid in
    elim outcome [
      | ignored ↦ (record after { rejected_datagrams = after.rejected_datagrams + 1 }, ignored)
      | raised ↦ (after, raised)
      | handled s ↦ conclude env clock packet s address transport after
    ]

-- The counters of a datagram, before anything is known of it.
unfoldable pub arrive : Env → Clock → Address → TransportKind → Receiver → Receiver
arrive env clock address transport r =
    emit_stage env datagram_received address transport (record r {
      datagrams_received = r.datagrams_received + 1;
      last_datagram_at = some clock.received_at;
    })

-- `_process_data`. A `struct.error` is no `PacketError`: it passes the handler.
unfoldable pub process_data :
    Env → Clock → List ℕ → Address → TransportKind → Receiver → Receiver × Handled
unfolding arrive reject_datagram is_not_allowed reject_host process_packet
process_data env clock bytes address transport r =
    let arrived = arrive env clock address transport r in
    elim (decode_packet bytes) [
      | err bad_struct ↦ (arrived, raised)
      | err e ↦ (reject_datagram clock e address transport arrived, ignored)
      | ok packet ↦
          if is_not_allowed arrived address transport
          then (reject_host clock address arrived, ignored)
          else process_packet env clock packet address transport arrived
    ]

-- `_handle_usb_data`: every cable has the same address.
unfoldable pub handle_usb_data : Env → Clock → List ℕ → Receiver → Receiver × Handled
unfolding process_data
handle_usb_data env clock bytes r = process_data env clock bytes ("usb", 0) usb r
