-- ===== src/Gui/Pairing.antt =====
-- `authorize` and `clear_pairing` of pc-server/pc_server/gui.py.
use niw_pspto_pc.Base.{ℕ, Bool, true, false, List, [], Option, none, some, if◌then◌else◌}
use niw_pspto_pc.Protocol.Pairing.{
  Unicode, value, raises, format_pairing_token, parse_pairing_token,
}
use niw_pspto_pc.Receiver.State.{TransportKind, wifi, usb}
use niw_pspto_pc.Doctor.{reset_pairing}
use niw_pspto_pc.Gui.{
  App, focus_code, set_pairing_token, disconnect, ◌▷◌, call, call_receiver, call_service,
}
use niw_pspto_pc.Gui.Widgets.{say, color_accent, color_blue, color_danger, pairing_error_text}
use niw_pspto_pc.Gui.Actions.{
  set_status, set_link_state, neutralize, set_code_text, refresh_doctor, refresh_transport_selector,
  render_connection_panel, gamepad_label, disconnect_current,
}

abbrev pub is_usb : Option TransportKind → Bool
is_usb (some usb) = true
is_usb _ = false

-- `if not usb_active: ...`, for each of them.
abbrev pub unless : Bool → (App → App) → App → App
unless true statement a = a
unless false statement a = statement a

-- `self._doctor.reset_pairing()` and `_refresh_doctor`
unfoldable pub reset_doctor : App → App
unfolding refresh_doctor
reset_doctor a = refresh_doctor (record a { doctor = reset_pairing a.doctor })

abbrev forget_address : App → App
forget_address a = record a { paired_address = none }

-- `authorize` from `code_var.set` on, with `usb_active`.
unfoldable pub enter_code : Bool → Bool → ℕ → List ℕ → App → App
enter_code usb_active ready token text a =
    a
    ▷ set_code_text text
    ▷ unless usb_active forget_address
    ▷ gamepad_label ready
    ▷ unless usb_active neutralize
    ▷ unless usb_active (set_link_state (say "SEARCHING PSP") (say "WI-FI CODE ACCEPTED"))
    ▷ unless usb_active (call_service (disconnect "pairing-changed"))
    ▷ call_receiver (set_pairing_token (some token))
    ▷ refresh_transport_selector
    ▷ render_connection_panel
    ▷ (if usb_active
        then set_status (say "Connected over USB")
            (say "USB remains active. Switch to Wi-Fi on the PSP when ready.") color_accent
        else set_status (say "Waiting for Wi-Fi")
            (say "Code saved. Waiting for your PSP to connect.") color_blue)

-- What `authorize` does with every token.
unfoldable pub take_token : ℕ → App → App
unfolding reset_doctor
take_token token a =
    reset_doctor
      (record a { selected_transport = wifi; wifi_options_open = true; active_token = some token })

-- `authorize`; an exception of `format_pairing_token` would leave the handler at its place.
unfoldable pub authorize : Unicode → Bool → App → App
unfolding enter_code take_token
authorize u ready a = elim (parse_pairing_token u a.screen.code) [
  | raises e ↦
      call focus_code (set_status (say "Check the code") (pairing_error_text e) color_danger a)
  | value token ↦ elim (format_pairing_token token) [
    | raises e ↦ take_token token a
    | value text ↦ enter_code (is_usb a.connected_transport) ready token text (take_token token a)
  ]
]

-- `clear_pairing` behind its first test.
unfoldable pub clear_code : Bool → Bool → App → App
unfolding reset_doctor
clear_code usb_active ready a =
    record a { wifi_options_open = true; selected_transport = wifi; active_token = none }
    ▷ reset_doctor
    ▷ set_code_text []
    ▷ gamepad_label ready
    ▷ unless usb_active forget_address
    ▷ unless usb_active neutralize
    ▷ unless usb_active (set_link_state (say "PAIRING MODE") (say "ENTER WI-FI CODE"))
    ▷ unless usb_active (call_service (disconnect "pairing-cleared"))
    ▷ call_receiver (set_pairing_token none)
    ▷ refresh_transport_selector
    ▷ render_connection_panel
    ▷ set_status (say "Enter the Wi-Fi code")
        (say "Use the five-character code currently shown on your PSP.") color_blue
    ▷ call focus_code

unfoldable pub clear_pairing : Bool → App → App
unfolding disconnect_current clear_code
clear_pairing ready a = elim a.connected_transport [
  | some wifi ↦ disconnect_current ready a
  | _ ↦ clear_code (is_usb a.connected_transport) ready a
]
