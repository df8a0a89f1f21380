-- ===== src/Doctor.antt =====
-- `ConnectionDoctor` of pc-server/pc_server/connection_doctor.py: milestones of the connection, and the
-- advice on the first one that is missing.
pub mod Report
pub mod Laws
mod Tests
use niw_pspto_pc.Base.{
  ℕ, ◌≡◌, ◌↔◌, Bool, true, false, not, ◌&&◌, String, List, [], ◌∷◌, Option, none, some, Eq, equals,
  string_eq, if◌then◌else◌, arith, map,
}
use niw_pspto_pc.Base.Dict.{member, add, discard}
use niw_pspto_pc.Receiver.State.{Address}
use niw_pspto_pc.Receiver.Metrics.{ReceiverMetrics}

pub data DoctorStage : Type 0 where
  port_bound datagram_received valid_packet code_matched ack_sent gamepad_created : DoctorStage

abbrev pub stage_beq : DoctorStage → DoctorStage → Bool
stage_beq port_bound port_bound = true
stage_beq datagram_received datagram_received = true
stage_beq valid_packet valid_packet = true
stage_beq code_matched code_matched = true
stage_beq ack_sent ack_sent = true
stage_beq gamepad_created gamepad_created = true
stage_beq _ _ = false

pub stage_beq_iff : (a b : DoctorStage) → (stage_beq a b ≡ true) ↔ (a ≡ b)
stage_beq_iff port_bound b = ground arith
stage_beq_iff datagram_received b = ground arith
stage_beq_iff valid_packet b = ground arith
stage_beq_iff code_matched b = ground arith
stage_beq_iff ack_sent b = ground arith
stage_beq_iff gamepad_created b = ground arith

instance abbrev pub stage_eq : Eq DoctorStage
stage_eq = record { beq = stage_beq; beq_iff = stage_beq_iff }

-- `DoctorStage.value`
abbrev pub stage_value : DoctorStage → String
stage_value port_bound = "PORT BOUND"
stage_value datagram_received = "DATAGRAM RECEIVED"
stage_value valid_packet = "VALID PACKET"
stage_value code_matched = "AUTH READY"
stage_value ack_sent = "ACK SENT"
stage_value gamepad_created = "GAMEPAD CREATED"

abbrev pub doctor_stage_order : List DoctorStage
doctor_stage_order =
    port_bound ∷ datagram_received ∷ valid_packet ∷ code_matched ∷ ack_sent ∷ gamepad_created ∷ []

-- `NetworkInterface` and `WindowsNetworkDiagnostics` of pc-server/pc_server/windows_diagnostics.py.
pub record NetworkInterface : Type 0 where
  pub name : String
  pub addresses : List String
  pub profile : String
  pub description : String

pub record WindowsNetworkDiagnostics : Type 0 where
  pub interfaces : List NetworkInterface
  pub firewall_status : String
  pub vpn_detected : Bool
  pub error : Option String

unfoldable pub multiple_interfaces : WindowsNetworkDiagnostics → Bool
multiple_interfaces network = elim network.interfaces [
  | [] ↦ false
  | first ∷ rest ↦ elim rest [ [] ↦ false | second ∷ more ↦ true ]
]

pub record ConnectionDoctor : Type 0 where
  pub completed : List DoctorStage
  pub gamepad_error : Option String
  pub bound_address : Option Address
  pub metrics : Option ReceiverMetrics
  pub network : Option WindowsNetworkDiagnostics

-- `ConnectionDoctor()`
abbrev pub new_doctor : ConnectionDoctor
new_doctor = record {
  completed = [];
  gamepad_error = none;
  bound_address = none;
  metrics = none;
  network = none;
}

unfoldable pub mark : DoctorStage → ConnectionDoctor → ConnectionDoctor
mark stage d = record d {
  completed = add stage d.completed;
  gamepad_error = if equals stage gamepad_created then none else d.gamepad_error;
}

unfoldable pub reset_pairing : ConnectionDoctor → ConnectionDoctor
reset_pairing d = record d {
  completed =
      discard datagram_received
        (discard valid_packet (discard code_matched (discard ack_sent d.completed)));
}

unfoldable pub fail_gamepad : String → ConnectionDoctor → ConnectionDoctor
fail_gamepad error d = record d {
  completed = discard gamepad_created d.completed;
  gamepad_error = some error;
}

unfoldable pub set_bound_address : Address → ConnectionDoctor → ConnectionDoctor
set_bound_address a d = record d { bound_address = some a }

unfoldable pub update_metrics : ReceiverMetrics → ConnectionDoctor → ConnectionDoctor
update_metrics metrics d = record d { metrics = some metrics }

unfoldable pub update_network : WindowsNetworkDiagnostics → ConnectionDoctor → ConnectionDoctor
update_network network d = record d { network = some network }

unfoldable pub rows : ConnectionDoctor → List (String × Bool)
rows d = map (λ stage. (stage_value stage, member stage d.completed)) doctor_stage_order

-- What `guidance` advises on.
pub data Advice : Type 0 where
  preflight_failed wait_to_bind check_driver no_data no_valid_packet no_authorization no_ack
        all_passed :
      Advice

-- `if self.gamepad_error`: an empty text counts as none.
abbrev pub is_set : Option String → Bool
is_set none = false
is_set (some text) = not (equals text "")

-- The tests of `guidance`, in their order.
unfoldable pub advise : ConnectionDoctor → Advice
advise d =
    let is_done = λ (stage : DoctorStage). member stage d.completed in
    if is_set d.gamepad_error
    then preflight_failed
    else if not (is_done port_bound)
    then wait_to_bind
    else if not (is_done gamepad_created)
    then check_driver
    else if not (is_done datagram_received) && not (is_done valid_packet)
    then no_data
    else if not (is_done valid_packet)
    then no_valid_packet
    else if not (is_done code_matched)
    then no_authorization
    else if not (is_done ack_sent)
    then no_ack
    else all_passed
