-- ===== src/Gui/Lifecycle.antt =====
-- The receiver's life in the window: `start_receiver`, `apply_settings`, `retry_gamepad`, `close` and
-- the two refreshes of pc-server/pc_server/gui.py.
use niw_pspto_pc.Base.{
  ℕ, ◌+◌, Bool, true, false, ◌||◌, List, [], ◌∷◌, Option, none, some, if◌then◌else◌,
}
use niw_pspto_pc.Protocol.Pairing.{Unicode}
use niw_pspto_pc.Receiver.Metrics.{ReceiverMetrics}
use niw_pspto_pc.Doctor.{new_doctor, update_metrics}
use niw_pspto_pc.Settings.{GuiSettings, Validated, valid, refused, validate_bind_settings}
use niw_pspto_pc.Settings.File.{Disk, FileSystem, save_settings}
use niw_pspto_pc.Gui.{
  App, ReceiverArgs, create_service, create_receiver, start_worker, scan_network, destroy_window,
  request_stop, ensure_backend, retry_backend, stop, destroy_root, live_diagnostics, ◌▷◌, call,
  call_receiver, call_service, after, on_service,
}
use niw_pspto_pc.Gui.Widgets.{
  lit, chars, num, say, color_blue, color_warn, color_danger, settings_error_text,
}
use niw_pspto_pc.Gui.Actions.{set_status, set_gamepad, refresh_doctor}

-- `set(settings.allowed_hosts) or None`
abbrev pub hosts_or_none : List (List ℕ) → Option (List (List ℕ))
hosts_or_none [] = none
hosts_or_none hosts = some hosts

abbrev pub receiver_args : GuiSettings → Option ℕ → ReceiverArgs
receiver_args settings token = record {
  host = settings.host;
  port = settings.port;
  allowed_hosts = hosts_or_none settings.allowed_hosts;
  pairing_token = token;
}

-- `_refresh_system_diagnostics`: its worker sends the port with the result.
unfoldable pub refresh_system_diagnostics : App → App
refresh_system_diagnostics a = record a {
  trace = if a.closing then a.trace else scan_network a.settings.port ∷ a.trace;
}

-- The part of `_refresh_live_diagnostics` under the test of the receiver.
unfoldable pub measure : ReceiverMetrics → App → App
unfolding refresh_doctor
measure metrics a = elim a.receiver [
  | none ↦ a
  | some id ↦ refresh_doctor (record a { doctor = update_metrics metrics a.doctor })
]

-- `_refresh_live_diagnostics`, with what `metrics()` of the receiver answers.
unfoldable pub refresh_live_diagnostics : ReceiverMetrics → App → App
unfolding measure
refresh_live_diagnostics metrics a =
    if a.closing then a else after live_diagnostics (measure metrics a)

-- `start_receiver` behind its first test: a new service and a new receiver.
unfoldable pub launch : App → App
unfolding refresh_doctor refresh_system_diagnostics
launch a =
    let id = a.created in
    record a { doctor = new_doctor; doctor_port = a.settings.port }
    ▷ refresh_doctor
    ▷ refresh_system_diagnostics
    ▷ (λ b. record b { running = true; controller_service = some id; created = id + 1 })
    ▷ call (create_service id)
    ▷ call (create_receiver id (receiver_args a.settings a.active_token))
    ▷ (λ b. record b { receiver = some id })
    ▷ call (on_service id ensure_backend)
    ▷ call (start_worker id)

unfoldable pub start_receiver : App → App
unfolding launch
start_receiver a = if a.running || a.closing then a else launch a

-- `if self._running and self._receiver is not None`, the last part of `apply_settings`.
unfoldable pub restart : App → App
unfolding start_receiver
restart a = elim a.receiver [
  | none ↦ start_receiver a
  | some id ↦
      if a.running
      then record a { restart_pending = true } ▷ call_receiver request_stop ▷ call_service stop
      else start_receiver a
]

-- `window` is whether the settings window was given and exists.
abbrev pub close_window : Bool → App → App
close_window false a = a
close_window true a = call destroy_window (record a { settings_window = false })

-- `apply_settings` behind the `try`, up to the last test.
unfoldable pub take_settings : Bool → GuiSettings → App → App
take_settings window settings a =
    record a { settings = settings }
    ▷ close_window window
    ▷ set_status (say "RESTARTING RECEIVER")
        (lit "Applying UDP " ∷ chars settings.host ∷ lit ":" ∷ num settings.port ∷ lit "." ∷ [])
        color_warn

-- `apply_settings` behind the `try`.
unfoldable pub use_settings : Bool → GuiSettings → App → App
unfolding take_settings restart
use_settings window settings a = restart (take_settings window settings a)

-- The tables of the runtime, what the file operations do and how `str` prints their `OSError`, and
-- whether the settings window is there.
pub record Setting : Type 0 where
  pub unicode : Unicode
  pub digit : ℕ → Option ℕ
  pub files : FileSystem
  pub os_error : List ℕ
  pub window : Bool

-- Behind `save_settings`, with the files that it left and whether it returned.
unfoldable pub use_saved : Setting → GuiSettings → Disk × Bool → App → App × Bool
unfolding use_settings
use_saved env settings (disk, false) a = (
  set_status (say "SETTINGS ERROR") (chars env.os_error ∷ []) color_danger
      (record a { disk = disk }),
  false,
)
use_saved env settings (disk, true) a =
    (use_settings env.window settings (record a { disk = disk }), true)

-- Behind `validate_bind_settings`.
unfoldable pub save_and_use : Setting → Validated GuiSettings → App → App × Bool
unfolding use_saved
save_and_use env (refused e) a =
    (set_status (say "SETTINGS ERROR") (settings_error_text e) color_danger a, false)
save_and_use env (valid settings) a =
    use_saved env settings (save_settings env.files settings a.disk) a

unfoldable pub apply_settings : Setting → List ℕ → List ℕ → List ℕ → App → App × Bool
unfolding save_and_use
apply_settings env host_text port_text allowed_hosts_text a =
    save_and_use env
      (validate_bind_settings env.unicode env.digit host_text port_text allowed_hosts_text) a

unfoldable pub retry_gamepad : App → App
retry_gamepad a = elim a.controller_service [
  | none ↦
      set_status (say "GAMEPAD NOT READY") (say "Start the receiver before retrying the gamepad.")
        color_warn a
  | some id ↦
      a
      ▷ set_gamepad "RETRYING"
      ▷ set_status (say "RETRYING GAMEPAD") (say "Running virtual-controller preflight again.")
          color_blue
      ▷ call (on_service id retry_backend)
]

unfoldable pub close : App → App
close a =
    record a { closing = true; restart_pending = false }
    ▷ call_receiver request_stop
    ▷ call_service stop
    ▷ after destroy_root
