-- ===== src/Gui/Widgets.antt =====
-- What the widgets show: the status card, the view of the PSP, the connection panel and the
-- advice of the doctor. Texts are lists of words.
use niw_pspto_pc.Base.{ℕ, Bool, true, String, List, [], ◌∷◌, none, some}
use niw_pspto_pc.Protocol.{InputPacket}
use niw_pspto_pc.Protocol.Pairing.{
  PairingError, out_of_range, no_letter, wrong_length, invalid_character,
}
use niw_pspto_pc.Receiver.State.{TransportKind, wifi, usb}
use niw_pspto_pc.Receiver.Metrics.{ReceiverMetrics}
use niw_pspto_pc.Doctor.{ConnectionDoctor}
use niw_pspto_pc.Doctor.Report.{Line, text, number, fixed, guidance}
use niw_pspto_pc.Settings.{SettingsError, bad_host, no_number, port_out_of_range, bad_allowed_host}

-- A literal, a text that the program was given, or a number.
pub data Word : Type 0 where
  lit : String → Word
  chars : List ℕ → Word
  num : ℕ → Word

abbrev pub Words : Type 0
Words = List Word

abbrev pub say : String → Words
say t = lit t ∷ []

pub data Color : Type 0 where
  color_accent color_blue color_warn color_danger : Color

pub data Frame : Type 0 where
  usb_setup wifi_setup connected : Frame

pub record Screen : Type 0 where
  pub status : Words
  pub status_detail : Words
  pub status_color : Color
  pub gamepad : String
  pub code : List ℕ
  pub link_title : Words
  pub link_detail : Words
  pub frame : Frame
  pub selector : TransportKind
  pub packet_shown : InputPacket
  pub input_rate : ℕ
  pub retry_enabled : Bool
  pub doctor_detail : Line
  pub doctor_metrics : Line

-- `neutralize` of the view shows this packet.
abbrev pub neutral_packet : InputPacket
neutral_packet = record {
  sequence = 0;
  buttons = 0;
  analog_x = 128;
  analog_y = 128;
  timestamp_us = 0;
  reserved = 0;
  session_token = none;
}

-- What the constructor leaves on the screen.
abbrev pub first_screen : Screen
first_screen = record {
  status = say "Starting receiver...";
  status_detail = say "Choose USB or Wi-Fi to connect your PSP.";
  status_color = color_warn;
  gamepad = "OFFLINE";
  code = [];
  link_title = say "WAITING FOR PSP";
  link_detail = say "USB OR WI-FI";
  frame = usb_setup;
  selector = usb;
  packet_shown = neutral_packet;
  input_rate = 0;
  retry_enabled = true;
  doctor_detail = [];
  doctor_metrics = text "Waiting for input" ∷ [];
}

-- `_transport_label`
abbrev pub transport_label : TransportKind → String
transport_label usb = "USB"
transport_label wifi = "Wi-Fi"

-- `str(error)` of the exceptions that are shown.
abbrev pub settings_error_text : SettingsError → Words
settings_error_text bad_host = say "The listening address must be a valid IPv4 address."
settings_error_text no_number = say "The port must be a number."
settings_error_text port_out_of_range = say "The port must be between 1 and 65535."
settings_error_text (bad_allowed_host candidate) =
    lit "The allowed PSP address is not a valid IPv4 address: " ∷ chars candidate ∷ []

abbrev pub pairing_error_text : PairingError → Words
pairing_error_text out_of_range = say "pairing token must be an unsigned 25-bit integer"
pairing_error_text no_letter = say "list index out of range"
pairing_error_text wrong_length = say "The pairing code must contain exactly 5 characters."
pairing_error_text (invalid_character c) =
    lit "Invalid pairing-code character: " ∷ chars (c ∷ []) ∷ []

-- The text of `doctor_metrics_var`.
unfoldable pub metrics_text : ReceiverMetrics → Line
metrics_text m =
    number m.valid_packets
    ∷ text " valid • "
    ∷ number m.rejected_datagrams
    ∷ text " rejected • "
    ∷ fixed 0 (m.packets_per_second, 1)
    ∷ text " Hz • "
    ∷ fixed 1 m.loss_percent
    ∷ text "% loss • last "
    ∷ (elim m.last_datagram_age [
      | none ↦ text "never" ∷ []
      | some age ↦ fixed 1 (age, 1_000_000) ∷ text "s" ∷ []
    ])

-- `_refresh_doctor`, but for the doctor's own window; there are no labels for its rows, since
-- `_doctor_row_labels` stays empty.
unfoldable pub show_doctor : ConnectionDoctor → ℕ → Screen → Screen
unfolding guidance metrics_text
show_doctor d port s = record s {
  doctor_detail = guidance port d;
  doctor_metrics = elim d.metrics [ none ↦ s.doctor_metrics | some m ↦ metrics_text m ];
}
