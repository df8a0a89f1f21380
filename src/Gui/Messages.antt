-- ===== src/Gui/Messages.antt =====
-- What the window does with the messages of its threads: `_poll_messages`, `_apply_snapshot`,
-- `_apply_controller_event` and `_apply_receiver_stage` of pc-server/pc_server/gui.py.
use niw_pspto_pc.Base.{
  ℕ, ◌+◌, Bool, true, false, not, ◌&&◌, String, codes, List, [], ◌∷◌, Option, none, some, equals,
  nat_eq, string_eq, option_eq, ◌==◌, if◌then◌else◌,
}
use niw_pspto_pc.Receiver.State.{
  Address, address_eq, ReceiverStage, port_bound, datagram_received, valid_packet, code_matched,
  ack_sent, TransportKind, wifi, usb, ReceiverSnapshot, ReceiverEvent,
}
use niw_pspto_pc.Gamepad.Failure.{
  BackendFailureKind, missing_library, missing_driver, driver_connection, update_failed,
}
use niw_pspto_pc.Gamepad.Service.State.{
  ControllerEvent, ControllerEventType, gamepad_ready, connected, neutralized, disconnected, error,
}
use niw_pspto_pc.Doctor as Doctor
use niw_pspto_pc.Doctor.{
  DoctorStage, gamepad_created, mark, fail_gamepad, set_bound_address, update_network,
}
use niw_pspto_pc.Gui as Gui
use niw_pspto_pc.Gui.{
  App, Message, listening, stage, packet, controller, network_diagnostics, stopped, NetworkError,
  focus_code, poll_messages, start_receiver, ◌▷◌, call, after,
}
use niw_pspto_pc.Gui.Widgets.{
  Words, lit, chars, say, color_accent, color_blue, color_warn, color_danger, transport_label,
}
use niw_pspto_pc.Gui.Actions.{
  on_screen, set_status, set_link_state, neutralize, set_gamepad, refresh_doctor,
  refresh_transport_selector, render_connection_panel, gamepad_label,
}

abbrev is_wifi : TransportKind → Bool
is_wifi wifi = true
is_wifi usb = false

-- `_apply_snapshot`
unfoldable pub apply_snapshot : ReceiverSnapshot → App → App
apply_snapshot s a =
    record a {
      paired_address = some s.address;
      connected_transport = some s.transport;
      selected_transport = s.transport;
      wifi_options_open = is_wifi s.transport;
    }
    ▷ refresh_transport_selector
    ▷ render_connection_panel
    ▷ on_screen (λ c. record c { packet_shown = s.packet; input_rate = s.packets_per_second })
    ▷ set_link_state (say "LINK ACTIVE") (say "CONTROLLER READY")
    ▷ set_status (lit "Connected over " ∷ lit (transport_label s.transport) ∷ [])
        (say "Your PSP is ready to use as an Xbox controller.") color_accent

-- `event.error or other`
abbrev pub error_or : Option (List ℕ) → String → List ℕ
error_or none other = codes other
error_or (some []) other = codes other
error_or (some text) other = text

-- `failure_copy`: the title, the detail, and the detail of the link.
abbrev pub failure_copy : Option BackendFailureKind → Option (List ℕ) → String × Words × String
failure_copy (some missing_library) e = (
  "GAMEPAD LIBRARY MISSING",
  say "Reinstall the Windows application package, then retry.",
  "LIBRARY MISSING",
)
failure_copy (some missing_driver) e =
    ("GAMEPAD DRIVER MISSING", say "Install ViGEmBus, then use RETRY GAMEPAD.", "INSTALL VIGEMBUS")
failure_copy (some driver_connection) e = (
  "GAMEPAD DRIVER ERROR",
  say "The driver is present but unavailable. Check it, then retry.",
  "DRIVER CONNECTION",
)
failure_copy (some update_failed) e = (
  "GAMEPAD UPDATE ERROR",
  say "The virtual pad connection failed during input. Retry it.",
  "UPDATE FAILED",
)
failure_copy none e = (
  "GAMEPAD ERROR",
  chars (error_or e "Correct the backend error, then retry.") ∷ [],
  "BACKEND ERROR",
)

-- The branch of `ERROR`. `as_text` is the same text in the form that the doctor keeps.
unfoldable pub show_failure : (List ℕ → String) → ControllerEvent → App → App
unfolding refresh_doctor
show_failure as_text event a =
    let (title, detail, link_detail) = failure_copy event.failure event.error_text in
    a
    ▷ set_gamepad "OFFLINE"
    ▷ (λ b. record b {
      doctor = fail_gamepad (as_text (error_or event.error_text "ViGEmBus unavailable")) b.doctor;
    })
    ▷ refresh_doctor
    ▷ on_screen (λ c. record c { retry_enabled = true })
    ▷ set_link_state (say "DRIVER ERROR") (say link_detail)
    ▷ set_status (say title) detail color_danger

abbrev waiting_text : TransportKind → String
waiting_text usb = "Waiting for the USB connection."
waiting_text wifi = "Waiting for your PSP over Wi-Fi."

-- The branch of a timeout.
unfoldable pub lose_connection : Bool → App → App
lose_connection ready a =
    record a { paired_address = none; connected_transport = none }
    ▷ render_connection_panel
    ▷ gamepad_label ready
    ▷ set_link_state (say "SIGNAL LOST") (say "WAITING FOR PSP")
    ▷ (λ b.
        set_status (say "Connection lost") (say (waiting_text b.selected_transport)) color_warn b)

unfoldable pub pause_input : App → App
pause_input a =
    let quiet = neutralize (set_gamepad "READY" a) in
    if a.running
    then quiet
      ▷ set_link_state (say "INPUT PAUSED") (say "CONTROLS RELEASED")
      ▷ set_status (say "Input paused")
          (say "Controls were released while waiting for fresh input.") color_warn
    else quiet

-- The branches of `_apply_controller_event`, by the type of the event.
unfoldable pub apply_event :
    (List ℕ → String) → Bool → ControllerEvent → ControllerEventType → App → App
unfolding show_failure lose_connection pause_input refresh_doctor
apply_event as_text ready event gamepad_ready a =
    record a { doctor = mark gamepad_created a.doctor }
    ▷ refresh_doctor
    ▷ set_gamepad "READY"
    ▷ on_screen (λ c. record c { retry_enabled = false })
apply_event as_text ready event connected a = set_gamepad "ACTIVE" a
apply_event as_text ready event neutralized a = pause_input a
apply_event as_text ready event error a = show_failure as_text event (neutralize a)
apply_event as_text ready event disconnected a =
    if equals event.reason "timeout" && a.running
    then lose_connection ready (neutralize a)
    else neutralize a

unfoldable pub apply_controller_event : (List ℕ → String) → Bool → ControllerEvent → App → App
unfolding apply_event
apply_controller_event as_text ready event a = apply_event as_text ready event event.event a

-- `mapping` of `_apply_receiver_stage`
abbrev pub doctor_stage : ReceiverStage → DoctorStage
doctor_stage port_bound = Doctor.port_bound
doctor_stage datagram_received = Doctor.datagram_received
doctor_stage valid_packet = Doctor.valid_packet
doctor_stage code_matched = Doctor.code_matched
doctor_stage ack_sent = Doctor.ack_sent

abbrev pub announces_usb : ReceiverEvent → App → Bool
announces_usb event a = elim event.transport [
  | wifi ↦ false
  | usb ↦ elim event.stage [
    | datagram_received ↦ not (equals a.paired_address (some ("usb", 0)))
    | _ ↦ false
  ]
]

-- `_apply_receiver_stage`
unfoldable pub apply_receiver_stage : ReceiverEvent → App → App
unfolding refresh_doctor
apply_receiver_stage event a =
    let marked = refresh_doctor (record a { doctor = mark (doctor_stage event.stage) a.doctor }) in
    if announces_usb event a
    then set_status (say "USB device detected")
        (say "Preparing the virtual controller. No code is required.") color_blue marked
    else marked

-- What the window waits for, by the transports that are connected and selected.
unfoldable pub announce_waiting : Option TransportKind → TransportKind → App → App
announce_waiting (some c) selected a = a
announce_waiting none wifi a =
    a
    ▷ set_status (say "Wi-Fi setup") (say "Enter the five-character code shown on your PSP.")
        color_blue
    ▷ call focus_code
announce_waiting none usb a =
    set_status (say "Waiting for USB") (say "Connect the cable and launch the app on your PSP.")
      color_blue a

-- The message "listening".
unfoldable pub apply_listening : Address → App → App
unfolding announce_waiting
apply_listening address a =
    record a { doctor = set_bound_address address a.doctor }
    ▷ announce_waiting a.connected_transport a.selected_transport

-- The message "error".
unfoldable pub apply_error : NetworkError → App → App
apply_error e a =
    a
    ▷ set_status (say "RECEIVER ERROR")
        (if e.address_in_use
          then say "The port is already used by another app instance."
          else chars e.text ∷ [])
        color_danger
    ▷ set_link_state (say "RECEIVER ERROR") (say "CHECK PC")

-- The end of the receiver that the window has.
unfoldable pub end_receiver : App → App
end_receiver a =
    let ended = record a { running = false; receiver = none; controller_service = none } in
    if a.restart_pending && not a.closing
    then after start_receiver (record ended { restart_pending = false })
    else ended

-- The message "stopped": that of an older receiver is ignored.
unfoldable pub apply_stopped : ℕ → App → App
unfolding end_receiver
apply_stopped id a = if equals a.receiver (some id) then end_receiver a else a

unfoldable pub apply_message : (List ℕ → String) → Bool → Message → App → App
unfolding apply_snapshot apply_controller_event apply_receiver_stage apply_listening apply_error
    apply_stopped refresh_doctor
apply_message as_text ready (listening address) a = apply_listening address a
apply_message as_text ready (stage event) a = apply_receiver_stage event a
apply_message as_text ready (packet s) a = apply_snapshot s a
apply_message as_text ready (controller event) a = apply_controller_event as_text ready event a
apply_message as_text ready (network_diagnostics port result) a =
    if port == a.settings.port
    then refresh_doctor (record a { doctor = update_network result a.doctor })
    else a
apply_message as_text ready (Gui.error e) a = apply_error e a
apply_message as_text ready (stopped id) a = apply_stopped id a

-- The loop over the queue; `ready` is `gamepad_ready` as each message finds it.
unfoldable pub drain : (List ℕ → String) → (ℕ → Bool) → ℕ → List Message → App → App
unfolding apply_message
drain as_text ready index [] a = a
drain as_text ready index (m ∷ messages) a =
    drain as_text ready (index + 1) messages (apply_message as_text (ready index) m a)

-- `_poll_messages`, which asks to be called again until the window closes.
unfoldable pub poll : (List ℕ → String) → (ℕ → Bool) → App → App
unfolding drain
poll as_text ready a =
    let drained = drain as_text ready 0 a.messages (record a { messages = [] }) in
    if drained.closing then drained else after poll_messages drained
