-- ===== src/Gui.antt =====
-- The data of the desktop window, `NiwPspToPcApp` of pc-server/pc_server/gui.py: its fields, what its
-- widgets show, and its calls of other objects.
pub mod Widgets
pub mod Actions
pub mod Pairing
pub mod Lifecycle
pub mod Messages
pub mod Run
pub mod Facts
pub mod Invariant
pub mod Sound
pub mod Reach
pub mod Restart
pub mod Calls
mod Tests
use niw_pspto_pc.Base.{ℕ, Bool, true, false, String, List, [], ◌∷◌, Option, none, some}
use niw_pspto_pc.Protocol.{InputPacket}
use niw_pspto_pc.Receiver.State.{Address, TransportKind, usb, ReceiverSnapshot, ReceiverEvent}
use niw_pspto_pc.Receiver.Metrics.{ReceiverMetrics}
use niw_pspto_pc.Gamepad.Service.State.{ControllerEvent}
use niw_pspto_pc.Doctor.{ConnectionDoctor, new_doctor, WindowsNetworkDiagnostics}
use niw_pspto_pc.Settings.{GuiSettings}
use niw_pspto_pc.Settings.File.{Disk}
use niw_pspto_pc.Gui.Widgets.{Screen, first_screen}

-- The arguments that `start_receiver` gives to `UdpReceiver`; the others are the same each time:
-- `require_pairing=True`, `enable_usb=True`, and the callbacks.
pub record ReceiverArgs : Type 0 where
  pub host : List ℕ
  pub port : ℕ
  pub allowed_hosts : Option (List (List ℕ))
  pub pairing_token : Option ℕ

pub data ReceiverCall : Type 0 where
  allow_transport : TransportKind → ReceiverCall
  set_pairing_token : Option ℕ → ReceiverCall
  disconnect_active_client : ReceiverCall
  request_stop : ReceiverCall

pub data ServiceCall : Type 0 where
  ensure_backend : ServiceCall
  retry_backend : ServiceCall
  disconnect : String → ServiceCall
  stop : ServiceCall

-- The calls of the window. Receivers and services are objects with an identity: the number of those
-- made before.
pub data Call : Type 0 where
  create_service : ℕ → Call
  create_receiver : ℕ → ReceiverArgs → Call
  start_worker : ℕ → Call
  on_receiver : ℕ → ReceiverCall → Call
  on_service : ℕ → ServiceCall → Call
  scan_network : ℕ → Call
  focus_code : Call
  destroy_window : Call

-- What `root.after` was asked for.
pub data Timer : Type 0 where
  poll_messages : Timer
  start_receiver : Timer
  destroy_root : Timer
  set_code : List ℕ → Timer
  live_diagnostics : Timer
  system_diagnostics : Timer

-- An `OSError` of the receiver: whether its `winerror` is 10048, and its text.
pub record NetworkError : Type 0 where
  pub address_in_use : Bool
  pub text : List ℕ

-- The entries of the queue, by their first component.
pub data Message : Type 0 where
  listening : Address → Message
  stage : ReceiverEvent → Message
  packet : ReceiverSnapshot → Message
  controller : ControllerEvent → Message
  network_diagnostics : ℕ → WindowsNetworkDiagnostics → Message
  error : NetworkError → Message
  stopped : ℕ → Message

pub record App : Type 0 where
  pub settings : GuiSettings
  pub doctor : ConnectionDoctor
  pub doctor_port : ℕ
  pub messages : List Message
  pub receiver : Option ℕ
  pub controller_service : Option ℕ
  pub running : Bool
  pub closing : Bool
  pub paired_address : Option Address
  pub active_token : Option ℕ
  pub settings_window : Bool
  pub restart_pending : Bool
  pub wifi_options_open : Bool
  pub selected_transport : TransportKind
  pub connected_transport : Option TransportKind
  pub screen : Screen
  -- The settings file.
  pub disk : Disk
  -- How many receivers were made.
  pub created : ℕ
  -- What the event loop is to call, and all calls so far, the latest first.
  pub pending : List Timer
  pub trace : List Call

-- `NiwPspToPcApp(root, auto_start=...)` with the settings that were loaded.
unfoldable pub new_app : GuiSettings → Disk → Bool → App
new_app settings disk auto_start = record {
  settings = settings;
  doctor = new_doctor;
  doctor_port = settings.port;
  messages = [];
  receiver = none;
  controller_service = none;
  running = false;
  closing = false;
  paired_address = none;
  active_token = none;
  settings_window = false;
  restart_pending = false;
  wifi_options_open = false;
  selected_transport = usb;
  connected_transport = none;
  screen = first_screen;
  disk = disk;
  created = 0;
  pending = elim auto_start [
    | true ↦ start_receiver ∷ live_diagnostics ∷ system_diagnostics ∷ poll_messages ∷ []
    | false ↦ live_diagnostics ∷ system_diagnostics ∷ poll_messages ∷ []
  ];
  trace = [];
}

infixl 2 ◌▷◌
-- Statements in their order.
abbrev pub ◌▷◌ : App → (App → App) → App
a ▷ statement = statement a

abbrev pub call : Call → App → App
call c a = record a { trace = c ∷ a.trace }

-- A call of an object that the field holds, if it is not `None`.
abbrev pub call_receiver : ReceiverCall → App → App
call_receiver c a = record a {
  trace = elim a.receiver [ none ↦ a.trace | some id ↦ on_receiver id c ∷ a.trace ];
}

abbrev pub call_service : ServiceCall → App → App
call_service c a = record a {
  trace = elim a.controller_service [ none ↦ a.trace | some id ↦ on_service id c ∷ a.trace ];
}

abbrev pub after : Timer → App → App
after timer a = record a { pending = timer ∷ a.pending }
