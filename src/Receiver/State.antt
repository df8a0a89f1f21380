-- ===== src/Receiver/State.antt =====
-- The data of `UdpReceiver` in pc-server/pc_server/receiver.py: its enums, the state of a client,
-- the fields of the receiver, and what it does to the outside. Times are microseconds of the
-- monotonic clock.
use niw_pspto_pc.Base.{
  ℕ, ◌≡◌, ◌↔◌, Bool, true, false, ◌&&◌, String, List, Option, none, Eq, equals, nat_eq, string_eq,
  option_eq, pair_eq, string_eq, arith,
}
use niw_pspto_pc.Base.Dict.{Dict}
use niw_pspto_pc.Protocol.{InputPacket, PacketError, error_beq, error_beq_iff}
use niw_pspto_pc.Receiver.Sequence.{
  SequenceEvent, event_beq, event_beq_iff, SequenceResult, SequenceTracker, new_tracker,
}
use niw_pspto_pc.Receiver.Rate.{RateTracker, new_rate}

abbrev pub default_active_client_timeout : ℕ
default_active_client_timeout = 1_750_000

abbrev pub default_client_retention : ℕ
default_client_retention = 10_000_000

abbrev pub transport_switch_grace : ℕ
transport_switch_grace = 150_000

abbrev pub pairing_ack_interval : ℕ
pairing_ack_interval = 100_000

pub data ReceiverStage : Type 0 where
  port_bound datagram_received valid_packet code_matched ack_sent : ReceiverStage

pub data TransportKind : Type 0 where
  wifi usb : TransportKind

abbrev pub same_transport : TransportKind → TransportKind → Bool
same_transport wifi wifi = true
same_transport usb usb = true
same_transport _ _ = false

pub same_transport_iff : (a b : TransportKind) → (same_transport a b ≡ true) ↔ (a ≡ b)
same_transport_iff wifi b = ground arith
same_transport_iff usb b = ground arith

-- Host and port.
abbrev pub Address : Type 0
Address = String × ℕ

instance abbrev pub address_eq : Eq Address
address_eq = pair_eq

-- The key of `_rejected_pairings`.
abbrev pub PairingKey : Type 0
PairingKey = String × Option ℕ

instance abbrev pub pairing_key_eq : Eq PairingKey
pairing_key_eq = pair_eq

-- The keys of `_rejection_logs`, whose first component is a word.
pub data LogKey : Type 0 where
  decode_key : TransportKind → String → PacketError → LogKey
  gap_key : Address → LogKey
  sequence_key : SequenceEvent → Address → LogKey

abbrev pub log_key_beq : LogKey → LogKey → Bool
log_key_beq (decode_key t h e) (decode_key t' h' e') =
    same_transport t t' && (equals h h' && error_beq e e')
log_key_beq (gap_key a) (gap_key a') = equals a a'
log_key_beq (sequence_key e a) (sequence_key e' a') = event_beq e e' && equals a a'
log_key_beq _ _ = false

pub log_key_beq_iff : (a b : LogKey) → (log_key_beq a b ≡ true) ↔ (a ≡ b)
log_key_beq_iff (decode_key t h e) (decode_key t' h' e') =
    ground (arith, same_transport_iff t t', string_eq.beq_iff h h', error_beq_iff e e')
log_key_beq_iff (gap_key a) (gap_key a') = ground (arith, address_eq.beq_iff a a')
log_key_beq_iff (sequence_key e a) (sequence_key e' a') =
    ground (arith, event_beq_iff e e', address_eq.beq_iff a a')
log_key_beq_iff a b = ground arith

instance abbrev pub log_key_eq : Eq LogKey
log_key_eq = record { beq = log_key_beq; beq_iff = log_key_beq_iff }

pub record ReceiverEvent : Type 0 where
  pub stage : ReceiverStage
  pub address : Address
  pub transport : TransportKind

pub record ClientState : Type 0 where
  pub sequences : SequenceTracker
  pub rate : RateTracker
  pub last_seen : ℕ
  pub last_fresh_state : ℕ
  pub inactive_warning_logged : Bool
  pub session_token : Option ℕ
  pub transport : TransportKind

-- `ClientState()`
abbrev pub new_client : ClientState
new_client = record {
  sequences = new_tracker;
  rate = new_rate;
  last_seen = 0;
  last_fresh_state = 0;
  inactive_warning_logged = false;
  session_token = none;
  transport = wifi;
}

pub record ReceiverSnapshot : Type 0 where
  pub packet : InputPacket
  pub address : Address
  pub packets_per_second : ℕ
  pub latency : Option ℕ
  pub sequence_result : SequenceResult
  pub received : ℕ
  pub lost : ℕ
  pub duplicates : ℕ
  pub out_of_order : ℕ
  pub is_active_client : Bool
  pub is_state_update : Bool
  pub transport : TransportKind

-- What the receiver does to the outside: log lines, the display, callbacks, and ACKs.
pub data Effect : Type 0 where
  log_selected : Address → Effect
  log_switched : TransportKind → TransportKind → Effect
  log_timed_out : Effect
  log_inactive : Address → Effect
  log_waiting_for_pairing : Address → Effect
  log_not_allowed : Address → Effect
  log_rejection : LogKey → Effect
  log_callback_failure : String → ℕ → Effect
  display_break_line : Effect
  display_render : ReceiverSnapshot → Effect
  call_stage : ReceiverEvent → Effect
  call_diagnostic : ReceiverSnapshot → Effect
  call_packet : ReceiverSnapshot → Effect
  send_ack : TransportKind → Address → List ℕ → Effect

-- The arguments of the constructor that the methods read later.
pub record Config : Type 0 where
  pub has_display : Bool
  pub allowed_hosts : Option (List String)
  pub require_pairing : Bool
  pub active_client_timeout : ℕ
  pub client_retention : ℕ

pub record Receiver : Type 0 where
  pub config : Config
  pub pairing_token : Option ℕ
  pub clients : Dict Address ClientState
  pub active_client : Option Address
  pub blocked_clients : List Address
  pub rejected_hosts : Dict String ℕ
  pub rejected_pairings : Dict PairingKey ℕ
  pub rejection_logs : Dict LogKey ℕ
  pub last_ack_sent : Dict Address ℕ
  pub datagrams_received : ℕ
  pub valid_packets : ℕ
  pub rejected_datagrams : ℕ
  pub pairing_rejections : ℕ
  pub last_datagram_at : Option ℕ
  pub callback_errors : ℕ
  pub callback_error_counts : Dict String ℕ
  -- All effects so far, the latest first.
  pub trace : List Effect

-- How the answer of the `pairing_ack_allowed` callback comes out.
pub data Answer : Type 0 where
  answers : Bool → Answer
  fails : Answer

-- The callbacks as they answer during one call of a method: `none` is a callback that was not
-- given; otherwise `true` means that it returns and `false` that it raises an `Exception`.
-- `ack_delivered` is whether the transport's send returns (or raises `OSError` or
-- `RuntimeError`).
pub record Env : Type 0 where
  pub on_packet : Option (ReceiverSnapshot → Bool)
  pub on_diagnostic : Option (ReceiverSnapshot → Bool)
  pub on_stage : Option (ReceiverEvent → Bool)
  pub pairing_ack_allowed : Option Answer
  pub ack_delivered : List ℕ → Bool

-- The readings of the clocks during one call: `time.monotonic()` on arrival, when a log line is
-- considered and when the ACK is considered, and `time.time_ns() // 1000`.
pub record Clock : Type 0 where
  pub received_at : ℕ
  pub logged_at : ℕ
  pub acked_at : ℕ
  pub epoch_us : ℕ
