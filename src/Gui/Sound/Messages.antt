-- ===== src/Gui/Sound/Messages.antt =====
-- The messages of the threads keep the invariant of the window.
use niw_pspto_pc.Base.{
  ℕ, ◌+◌, refl, Bool, false, not, ◌&&◌, String, List, [], ◌∷◌, Option, none, some, equals, nat_eq,
  string_eq, option_eq, arith, ◌==◌,
}
use niw_pspto_pc.Receiver.State.{TransportKind, wifi, usb, ReceiverEvent}
use niw_pspto_pc.Gamepad.Service.State.{
  ControllerEvent, ControllerEventType, gamepad_ready, connected, neutralized, disconnected, error,
}
use niw_pspto_pc.Doctor.{set_bound_address}
use niw_pspto_pc.Gui as Gui
use niw_pspto_pc.Gui.{
  App, new_app, Timer, poll_messages, start_receiver, destroy_root, set_code, live_diagnostics,
  system_diagnostics, Message, listening, stage, packet, controller, network_diagnostics, stopped,
  after,
}
use niw_pspto_pc.Gui.Messages.{
  apply_snapshot, pause_input, apply_controller_event, apply_receiver_stage, apply_listening,
  end_receiver, apply_stopped, apply_message, drain, apply_event, announce_waiting, announces_usb,
  apply_error,
}
use niw_pspto_pc.Gui.Facts.{facts, branch}
use niw_pspto_pc.Gui.Invariant.{after-IsSound, lose-IsSound, connect-IsSound, stop-IsSound}
use niw_pspto_pc.Gui.Sound.{Sound}

module _ (k : ℕ) (shut : Option ℕ) where
  apply_event-Sound :
      (as_text : List ℕ → String) (ready : Bool) (e : ControllerEvent) (t : ControllerEventType)
      (a : App)
      → Sound k shut a
      → Sound k shut (apply_event as_text ready e t a)
  unfolding apply_event
  apply_event-Sound as_text ready e gamepad_ready a s = s
  apply_event-Sound as_text ready e connected a s = s
  apply_event-Sound as_text ready e neutralized a s =
      unfold pause_input in branch (Sound k shut) a.running _ _ (λ h. s) (λ h. s)
  apply_event-Sound as_text ready e error a s = s
  apply_event-Sound as_text ready e disconnected a s =
      branch (Sound k shut) (equals e.reason "timeout" && a.running) _ _
        (λ h. lose-IsSound k shut (facts a) s) (λ h. s)

  announce_waiting-Sound :
      (c : Option TransportKind) (t : TransportKind) (a : App)
      → Sound k shut a
      → Sound k shut (announce_waiting c t a)
  unfolding announce_waiting
  announce_waiting-Sound (some c) t a s = s
  announce_waiting-Sound none wifi a s = s
  announce_waiting-Sound none usb a s = s

  stage-Sound :
      (e : ReceiverEvent) (a : App) → Sound k shut a → Sound k shut (apply_receiver_stage e a)
  unfolding apply_receiver_stage
  stage-Sound e a s = branch (Sound k shut) (announces_usb e a) _ _ (λ h. s) (λ h. s)

  end_receiver-Sound : (a : App) → Sound k shut a → Sound k shut (end_receiver a)
  unfolding end_receiver
  end_receiver-Sound a s =
      branch (Sound k shut) (a.restart_pending && not a.closing) _ _
        (λ e.
          after-IsSound k shut start_receiver _ refl
            (stop-IsSound k shut (facts a) false (λ h. absurd (ground (arith, h))) s))
        (λ e. stop-IsSound k shut (facts a) a.restart_pending (λ h. ground (arith, e, h)) s)

  apply_stopped-Sound : (id : ℕ) (a : App) → Sound k shut a → Sound k shut (apply_stopped id a)
  unfolding apply_stopped
  apply_stopped-Sound id a s =
      branch (Sound k shut) (equals a.receiver (some id)) (end_receiver a) a
        (λ e. end_receiver-Sound a s) (λ e. s)

  apply_message-Sound :
      (as_text : List ℕ → String) (ready : Bool) (m : Message) (a : App)
      → Sound k shut a
      → Sound k shut (apply_message as_text ready m a)
  unfolding apply_message
  apply_message-Sound as_text ready (listening address) a s =
      unfold apply_listening in
      announce_waiting-Sound _ _ (record a { doctor = set_bound_address address a.doctor }) s
  apply_message-Sound as_text ready (stage e) a s = stage-Sound e a s
  apply_message-Sound as_text ready (packet p) a s =
      unfold apply_snapshot in connect-IsSound k shut (facts a) p.address p.transport s
  apply_message-Sound as_text ready (controller e) a s =
      unfold apply_controller_event in apply_event-Sound as_text ready e e.event a s
  apply_message-Sound as_text ready (network_diagnostics port result) a s =
      branch (Sound k shut) (port == a.settings.port) _ a (λ h. s) (λ h. s)
  apply_message-Sound as_text ready (Gui.error e) a s = unfold apply_error in s
  apply_message-Sound as_text ready (stopped id) a s = apply_stopped-Sound id a s

  pub drain-Sound :
      (as_text : List ℕ → String) (ready : ℕ → Bool) (index : ℕ) (messages : List Message) (a : App)
      → Sound k shut a
      → Sound k shut (drain as_text ready index messages a)
  unfolding drain
  drain-Sound as_text ready index [] a s = s
  drain-Sound as_text ready index (m ∷ messages) a s =
      drain-Sound as_text ready (index + 1) messages _
        (apply_message-Sound as_text (ready index) m a s)
