-- ===== src/Gui/Actions.antt =====
-- What the user does in the window: the buttons, the code entry, the settings, closing.
use niw_pspto_pc.Base.{
  ℕ, Bool, true, false, not, ◌&&◌, String, List, [], ◌∷◌, Option, none, some, ltb, length,
  if◌then◌else◌,
}
use niw_pspto_pc.Base.Dict.{member}
use mathlib.Core.List.{flat_map}
use niw_pspto_pc.Protocol.Pairing.{Unicode, delete, pairing_alphabet}
use niw_pspto_pc.Base.{nat_eq}
use niw_pspto_pc.Receiver.State.{TransportKind, wifi, usb, same_transport}
use niw_pspto_pc.Doctor.{reset_pairing}
use niw_pspto_pc.Settings.{text_eq, text_beq}
use niw_pspto_pc.Gui.{
  App, focus_code, allow_transport, set_pairing_token, disconnect_active_client, disconnect,
  set_code, ◌▷◌, call, call_receiver, call_service, after,
}
use niw_pspto_pc.Gui.Widgets.{
  Screen, lit, Words, say, Color, color_accent, color_blue, color_warn, Frame, usb_setup,
  wifi_setup, connected, neutral_packet, transport_label, show_doctor,
}

abbrev pub on_screen : (Screen → Screen) → App → App
on_screen f a = record a { screen = f a.screen }

-- `_set_status`
abbrev pub set_status : Words → Words → Color → App → App
set_status title detail color a =
    on_screen (λ s. record s { status = title; status_detail = detail; status_color = color }) a

-- `controller_view.set_link_state`
abbrev pub set_link_state : Words → Words → App → App
set_link_state title detail a =
    on_screen (λ s. record s { link_title = title; link_detail = detail }) a

-- `controller_view.neutralize`
abbrev pub neutralize : App → App
neutralize a = on_screen (λ s. record s { packet_shown = neutral_packet }) a

-- `gamepad_var.set`
abbrev pub set_gamepad : String → App → App
set_gamepad t a = on_screen (λ s. record s { gamepad = t }) a

-- `code_var.set`
abbrev pub set_code_text : List ℕ → App → App
set_code_text t a = on_screen (λ s. record s { code = t }) a

-- `_refresh_doctor`
unfoldable pub refresh_doctor : App → App
unfolding show_doctor
refresh_doctor a = on_screen (show_doctor a.doctor a.doctor_port) a

-- `_refresh_transport_selector`: the button that is highlighted.
abbrev pub refresh_transport_selector : App → App
refresh_transport_selector a = on_screen (λ s. record s { selector = a.selected_transport }) a

-- The frame that `_render_connection_panel` shows.
abbrev pub panel_frame : Option TransportKind → TransportKind → Frame
panel_frame none usb = usb_setup
panel_frame none wifi = wifi_setup
panel_frame (some c) selected =
    if same_transport c selected
    then connected
    else elim selected [ usb ↦ usb_setup | wifi ↦ wifi_setup ]

abbrev pub render_connection_panel : App → App
render_connection_panel a =
    on_screen (λ s. record s { frame = panel_frame a.connected_transport a.selected_transport }) a

-- The text beside "Virtual controller"; `ready` is `gamepad_ready` of the service.
abbrev pub gamepad_label : Bool → App → App
gamepad_label ready a =
    set_gamepad
      (elim a.controller_service [
        | none ↦ "OFFLINE"
        | some id ↦ if ready then "READY" else "OFFLINE"
      ])
      a

-- The status behind `select_transport`.
unfoldable pub show_selection : TransportKind → App → App
show_selection transport a = elim a.connected_transport [
  | some c ↦
      if same_transport c transport
      then set_status (lit "Connected over " ∷ lit (transport_label transport) ∷ [])
          (say "Your PSP is ready to use.") color_accent a
      else set_status (lit "Connected over " ∷ lit (transport_label c) ∷ [])
          (lit (transport_label transport)
            ∷ lit " is selected. Choose the same transport on your PSP when you are ready."
            ∷ [])
          color_blue a
  | none ↦ elim transport [
    | usb ↦
        a
        ▷ set_status (say "Waiting for USB")
            (say "Connect the cable and launch niwPSPtoPC on your PSP.") color_blue
        ▷ set_link_state (say "WAITING FOR PSP") (say "USB CONNECTION")
    | wifi ↦
        a
        ▷ set_status (say "Wi-Fi setup") (say "Enter the five-character code shown on your PSP.")
            color_blue
        ▷ set_link_state (say "PAIRING MODE") (say "ENTER WI-FI CODE")
        ▷ call focus_code
  ]
]

abbrev is_wifi : TransportKind → Bool
is_wifi wifi = true
is_wifi usb = false

-- `select_transport` before the status.
abbrev pub choose_transport : TransportKind → App → App
choose_transport transport a =
    record a { selected_transport = transport; wifi_options_open = is_wifi transport }
    ▷ call_receiver (allow_transport transport)
    ▷ refresh_transport_selector
    ▷ render_connection_panel

-- `select_transport`, which `show_wifi_options` and `show_usb_hint` call.
unfoldable pub select_transport : TransportKind → App → App
unfolding show_selection
select_transport transport a = a ▷ choose_transport transport ▷ show_selection transport

-- The code is forgotten, if it is the code's session that ends.
abbrev pub forget_token : TransportKind → App → App
forget_token usb a = a
forget_token wifi a = set_code_text [] (record a { active_token = none })

abbrev pub end_client : TransportKind → App → App
end_client wifi a = call_receiver (set_pairing_token none) a
end_client usb a = call_receiver disconnect_active_client a

abbrev disconnected_label : TransportKind → String
disconnected_label usb = "USB DISCONNECTED"
disconnected_label wifi = "WI-FI DISCONNECTED"

abbrev reconnect_hint : TransportKind → String
reconnect_hint wifi = "Enter the Wi-Fi code again when you want to reconnect."
reconnect_hint usb = "Select USB again or reconnect the cable to continue."

-- `disconnect_current` behind its first test.
unfoldable pub disconnect_transport : TransportKind → Bool → App → App
unfolding refresh_doctor
disconnect_transport transport ready a =
    a
    ▷ end_client transport
    ▷ forget_token transport
    ▷ (λ b. record b { paired_address = none; connected_transport = none })
    ▷ neutralize
    ▷ set_link_state (say "WAITING FOR PSP") (say (disconnected_label transport))
    ▷ call_service (disconnect "user-disconnected")
    ▷ gamepad_label ready
    ▷ (λ b. record b { doctor = reset_pairing b.doctor })
    ▷ refresh_doctor
    ▷ render_connection_panel
    ▷ set_status (say "Disconnected") (say (reconnect_hint transport)) color_warn

-- `disconnect_current`
unfoldable pub disconnect_current : Bool → App → App
unfolding disconnect_transport
disconnect_current ready a = elim a.connected_transport [
  | none ↦ a
  | some transport ↦ disconnect_transport transport ready a
]

-- `_normalize_code_text`
unfoldable pub normalize_code_text : Unicode → List ℕ → List ℕ
unfolding delete
normalize_code_text u text = delete b'-' (delete b' ' (flat_map u.upper text))

abbrev pub all_letters : List ℕ → Bool
all_letters [] = true
all_letters (c ∷ cs) = member c pairing_alphabet && all_letters cs

-- `_validate_code_entry`: whether the entry may hold the text.
unfoldable pub validate_code_entry : Unicode → List ℕ → App → App × Bool
unfolding normalize_code_text
validate_code_entry u proposed a =
    let normalized = normalize_code_text u proposed in
    if ltb 5 (length normalized)
    then (a, false)
    else if not (all_letters normalized)
    then (a, false)
    else if not (text_beq proposed normalized)
    then (after (set_code normalized) a, true)
    else (a, true)
