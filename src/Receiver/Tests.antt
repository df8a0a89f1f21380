-- ===== src/Receiver/Tests.antt =====
-- A receiver with one active Wi-Fi client, a cable that takes over, and a run.
use niw_pspto_pc.Base.{
  ℕ, All, false, ◌≡◌, ◌≢◌, ◌≤◌, ◌+◌, ◌%◌, ◌^◌, refl, sym, ap, ◌∙◌, true, false, List, [], ◌∷◌,
  String, string_eq, Option, none, some, length, arith, if◌then◌else◌, ltb, ◌==◌, ◌*◌, ◌<◌, ◌&&◌,
}
use niw_pspto_pc.Base.Dict.{lookup, member, insert}
use niw_pspto_pc.Receiver.Clients.{maintain_clients, disconnect_active_client}
use niw_pspto_pc.Receiver.Invariant.Packets.{SeenBy}
use niw_pspto_pc.Struct.{IsByte, unpack, unpack_from}
use niw_pspto_pc.Protocol.{InputPacket, decode_packet, ok}
use niw_pspto_pc.Receiver.Sequence.{is_fresh, SequenceTracker, new_tracker, observe}
use niw_pspto_pc.Receiver.Sequence.Laws.{
  event_at, lost_at, observe_serial, observe_all, Accounts, observe_all-Accounts,
}
use niw_pspto_pc.Receiver.Rate.{new_rate}
use niw_pspto_pc.Receiver.Cache.{rejection_cache_max_entries, remember}
use niw_pspto_pc.Receiver.Cache.Laws.{IsTimely, remember-IsTimely}
use niw_pspto_pc.Receiver.State.{
  Receiver, ClientState, Config, wifi, usb, Address, address_eq, Env, Clock, answers,
}
use niw_pspto_pc.Receiver.Handle.{ignored, raised, is_unpaired, handle_packet}
use niw_pspto_pc.Receiver.Process.{is_not_allowed, process_data}
use niw_pspto_pc.Receiver.Invariant.{IsConsistent}
use niw_pspto_pc.Receiver.Takeover.{MayLose, handle_packet_exclusive}
use niw_pspto_pc.Receiver.Unpaired.{control, process_data_unpaired}
use niw_pspto_pc.Receiver.Rate.{observe_rate}
use niw_pspto_pc.Receiver.Rate.Laws.{keep_recent, observe_rates, observe_rate_counts}
use niw_pspto_pc.Receiver.Calls.{packet_calls, is_given}
use niw_pspto_pc.Receiver.Metrics.{metrics}
use niw_pspto_pc.Receiver.Metrics.Laws.{metrics_tell}
use niw_pspto_pc.Receiver.Accounts.{HasRange, process_data_counts}
use niw_pspto_pc.Receiver.Choice.{IsFree, TakesControl}
use niw_pspto_pc.Receiver.Admission.{process_data-TakesControl}
use niw_pspto_pc.Receiver.Run.{
  empty_receiver, new_receiver, here, next, datagram, disconnect, Reach-IsConsistent,
}

abbrev config : Config
config = record {
  has_display = true;
  allowed_hosts = none;
  require_pairing = true;
  active_client_timeout = 1_750_000;
  client_retention = 10_000_000;
}

abbrev started : Receiver
started = empty_receiver config (some 7)

started_is_new : new_receiver config (some 7) ≡ some started
unfolding new_receiver
started_is_new = refl

-- Every callback is given and returns.
abbrev env : Env
env = record {
  on_packet = some (λ s. true);
  on_diagnostic = some (λ s. true);
  on_stage = some (λ e. true);
  pairing_ack_allowed = some (answers true);
  ack_delivered = λ ack. true;
}

abbrev clock : Clock
clock = record {
  received_at = 2_000_000;
  logged_at = 2_000_010;
  acked_at = 2_000_020;
  epoch_us = 1_700_000_000_000_000;
}

abbrev phone : Address
phone = ("192.168.0.20", 40_000)

abbrev cable : Address
cable = ("usb", 0)

abbrev packet : InputPacket
packet = record {
  sequence = 1;
  buttons = 0x10;
  analog_x = 128;
  analog_y = 128;
  timestamp_us = 5;
  reserved = 0;
  session_token = some 7;
}

-- The state of the Wi-Fi client: its last fresh packet was 0.2 seconds ago.
abbrev phone_state : ClientState
phone_state = record {
  sequences = record new_tracker { last_sequence = some 50; received = 3; lost = 1 };
  rate = new_rate;
  last_seen = 1_900_000;
  last_fresh_state = 1_800_000;
  inactive_warning_logged = false;
  session_token = some 7;
  transport = wifi;
}

abbrev playing : Receiver
playing = record started { clients = (phone, phone_state) ∷ []; active_client = some phone }

other_address : phone ≢ cable
other_address e = let port : phone.1 ≡ cable.1 = ap (λ (a : Address). a.1) e in omega arith

taken_over :
    (handle_packet env clock packet cable usb 2_000_000 playing).0.active_client ≡ some cable
unfolding handle_packet observe member maintain_clients lookup insert
taken_over = refl

abbrev port_of : Option Address → ℕ
port_of none = 0
port_of (some a) = a.1

handle_packet_exclusive_example : MayLose playing phone packet usb 2_000_000
handle_packet_exclusive_example =
    handle_packet_exclusive env clock packet phone cable usb 2_000_000 playing refl other_address
      (λ e.
        let port : port_of (some cable) ≡ port_of (some phone) = ap port_of (sym taken_over ∙ e) in
        omega arith)

-- The packet above with the code 9.
abbrev foreign : InputPacket
foreign = record packet { session_token = some 9 }

abbrev foreign_datagram : List ℕ
foreign_datagram =
    0x50 ∷ 0x53 ∷ 0x50 ∷ 0x49 ∷ 0 ∷ 2 ∷ 0 ∷ 32 ∷ 0 ∷ 0 ∷ 0 ∷ 1 ∷ 0 ∷ 0 ∷ 0 ∷ 0x10 ∷ 128 ∷ 128 ∷ 0
    ∷ 0 ∷ 0 ∷ 0 ∷ 0 ∷ 9 ∷ 0 ∷ 0 ∷ 0 ∷ 0 ∷ 0 ∷ 0 ∷ 0 ∷ 5 ∷ []

foreign_decoded : decode_packet foreign_datagram ≡ ok foreign
unfolding decode_packet unpack_from unpack
foreign_decoded = refl

process_data_unpaired_example :
    (control (process_data env clock foreign_datagram phone wifi playing).0 ≡ control playing)
    × ((process_data env clock foreign_datagram phone wifi playing).1 ≡ ignored)
process_data_unpaired_example =
    process_data_unpaired env clock foreign_datagram foreign phone playing refl foreign_decoded
      (λ token set same. ground arith)

unseen : SeenBy (lookup phone started.clients) clock.received_at
unfolding lookup
unseen = tt

-- The packet above with the right code.
abbrev paired_datagram : List ℕ
paired_datagram =
    0x50 ∷ 0x53 ∷ 0x50 ∷ 0x49 ∷ 0 ∷ 2 ∷ 0 ∷ 32 ∷ 0 ∷ 0 ∷ 0 ∷ 1 ∷ 0 ∷ 0 ∷ 0 ∷ 0x10 ∷ 128 ∷ 128 ∷ 0
    ∷ 0 ∷ 0 ∷ 0 ∷ 0 ∷ 7 ∷ 0 ∷ 0 ∷ 0 ∷ 0 ∷ 0 ∷ 0 ∷ 0 ∷ 5 ∷ []

abbrev paired : Receiver
paired = (process_data env clock paired_datagram phone wifi started).0

Reach-IsConsistent_example : IsConsistent (disconnect_active_client paired).0
Reach-IsConsistent_example =
    Reach-IsConsistent config (some 7) started (disconnect_active_client paired).0 started_is_new (
      next (next here (datagram env clock paired_datagram phone wifi started unseen))
        (disconnect paired))

-- Three packets on from the last number before the wrap.
abbrev before_wrap : SequenceTracker
before_wrap = record new_tracker { last_sequence = some 0xffff_fffe; received = 9 }

observe_serial_example :
    (t' : SequenceTracker) × (observe before_wrap ((0xffff_fffe + 3) % 2 ^ 32)
      ≡ some (t', record { event = event_at 3; lost = lost_at 3 }))
    × (t'.received ≡ 9 + 1)
    × (t'.lost ≡ 0 + lost_at 3)
    × (t'.duplicates ≡ 0 + (if 3 == 0 then 1 else 0))
    × (t'.out_of_order ≡ 0 + (if ltb 3 (2 ^ 31) then 0 else 1))
    × (t'.last_sequence
        ≡ (if is_fresh (event_at 3) then some ((0xffff_fffe + 3) % 2 ^ 32) else some 0xffff_fffe))
observe_serial_example = observe_serial before_wrap 0xffff_fffe 3 refl (omega arith) (omega arith)

observe_all-Accounts_example :
    (t : SequenceTracker) × (observe_all new_tracker (0xffff_ffff ∷ 0 ∷ 0 ∷ 4 ∷ 2 ∷ []) ≡ some t)
    × Accounts 0xffff_ffff t
observe_all-Accounts_example = observe_all-Accounts 0xffff_ffff (0 ∷ 0 ∷ 4 ∷ 2 ∷ []) (omega arith)

remember-IsTimely_example :
    IsTimely {K = String} 0 9_000_000 (remember (("b", 3) ∷ ("a", 5_000) ∷ []) "c" 9_000_000).0
    × (length (remember {K = String} (("b", 3) ∷ ("a", 5_000) ∷ []) "c" 9_000_000).0
        ≤ rejection_cache_max_entries)
remember-IsTimely_example =
    remember-IsTimely (("b", 3) ∷ ("a", 5_000) ∷ []) "c" 8_000 9_000_000 (omega arith) (omega arith)
      (omega arith)

datagram_is_bytes : All IsByte paired_datagram
datagram_is_bytes = omega arith

started_code : HasRange started.pairing_token
started_code = λ t e. ground arith

process_data_counts_example :
    ((process_data env clock paired_datagram phone wifi started).1 ≢ raised)
    × ((process_data env clock paired_datagram phone wifi started).0.datagrams_received ≡ 0 + 1)
    × ((process_data env clock paired_datagram phone wifi started).0.valid_packets
          + (process_data env clock paired_datagram phone wifi started).0.rejected_datagrams
        ≡ 0 + 0 + 1)
process_data_counts_example =
    process_data_counts env clock paired_datagram phone wifi started datagram_is_bytes started_code

paired_decoded : decode_packet paired_datagram ≡ ok packet
unfolding decode_packet unpack_from unpack
paired_decoded = refl

has_code : is_unpaired started packet wifi ≡ false
unfolding is_unpaired
has_code = refl

listed : is_not_allowed started phone wifi ≡ false
unfolding is_not_allowed
listed = refl

nobody_active : IsFree started clock.received_at
nobody_active = λ a e. cc

not_blocked : member phone started.blocked_clients ≡ false
unfolding member
not_blocked = refl

process_data-TakesControl_example :
    (k : TakesControl packet phone
      (lookup phone started.clients ≡ none)
      (process_data env clock paired_datagram phone wifi started))
    × (packet_calls (process_data env clock paired_datagram phone wifi started).0.trace ≡ (
        if is_given env.on_packet && is_fresh k.snapshot.sequence_result.event
        then k.snapshot ∷ packet_calls started.trace
        else packet_calls started.trace))
process_data-TakesControl_example =
    process_data-TakesControl env clock paired_datagram packet phone wifi started datagram_is_bytes
      paired_decoded started_code listed has_code nobody_active not_blocked

observe_rate_counts_example :
    (observe_rate (observe_rates new_rate (5 ∷ 900_000 ∷ 1_000_006 ∷ [])) 1_900_000).1
    ≡ length (keep_recent 1_900_000 (5 ∷ 900_000 ∷ 1_000_006 ∷ 1_900_000 ∷ []))
observe_rate_counts_example =
    observe_rate_counts (5 ∷ 900_000 ∷ 1_000_006 ∷ []) 1_900_000
      (omega arith, (omega arith, (omega arith, (omega arith, tt))))

-- The Wi-Fi client with two arrivals.
abbrev busy_state : ClientState
busy_state = record phone_state { rate = record { arrivals = 100_000 ∷ 1_800_000 ∷ [] } }

abbrev busy : Receiver
busy = record playing { clients = (phone, busy_state) ∷ [] }

busy_is_known : lookup phone busy.clients ≡ some busy_state
unfolding lookup
busy_is_known = refl

metrics_tell_example :
    let m = (metrics 2_000_000 busy).1 in
    (m.packets_per_second ≡ length (keep_recent 2_000_000 busy_state.rate.arrivals))
    × (m.loss_percent.0 * (3 + 1) ≡ 100 * 1 * m.loss_percent.1)
    × (0 < m.loss_percent.1)
    × (m.loss_percent.0 ≤ 100 * m.loss_percent.1)
    × (m.datagrams_received ≡ busy.datagrams_received)
    × (m.valid_packets ≡ busy.valid_packets)
    × (m.rejected_datagrams ≡ busy.rejected_datagrams)
    × ((metrics 2_500_000 (metrics 2_000_000 busy).0).1 ≡ (metrics 2_500_000 busy).1)
metrics_tell_example =
    metrics_tell 2_000_000 2_500_000 busy phone busy_state (omega arith) refl busy_is_known
      ((omega arith, tt), (tt, tt))
