-- ===== src/Doctor/Laws.antt =====
-- The advice of the doctor agrees with its rows, through any sequence of its operations.
use niw_pspto_pc.Base.{◌≡◌, ◌↔◌, Bool, true, false, ◌&&◌, String, List, [], ◌∷◌, arith}
use niw_pspto_pc.Base.Dict.{member, discard, member-add, member-discard}
use niw_pspto_pc.Receiver.State.{Address}
use niw_pspto_pc.Receiver.Metrics.{ReceiverMetrics}
use niw_pspto_pc.Doctor.{
  DoctorStage, port_bound, datagram_received, valid_packet, code_matched, ack_sent, gamepad_created,
  stage_eq, WindowsNetworkDiagnostics, ConnectionDoctor, new_doctor, mark, reset_pairing,
  fail_gamepad, set_bound_address, update_metrics, update_network, preflight_failed, all_passed,
  is_set, advise,
}

-- One operation of the doctor.
pub data Operation : Type 0 where
  marks : DoctorStage → Operation
  resets : Operation
  fails : String → Operation
  binds : Address → Operation
  measures : ReceiverMetrics → Operation
  scans : WindowsNetworkDiagnostics → Operation

abbrev pub operate : Operation → ConnectionDoctor → ConnectionDoctor
operate (marks stage) d = mark stage d
operate resets d = reset_pairing d
operate (fails error) d = fail_gamepad error d
operate (binds a) d = set_bound_address a d
operate (measures m) d = update_metrics m d
operate (scans network) d = update_network network d

abbrev pub operate_all : List Operation → ConnectionDoctor → ConnectionDoctor
operate_all [] d = d
operate_all (o ∷ operations) d = operate_all operations (operate o d)

abbrev pub is_done : DoctorStage → ConnectionDoctor → Bool
is_done stage d = member stage d.completed

-- A failure of the gamepad and its milestone exclude each other.
IsCoherent : ConnectionDoctor → Type 0
IsCoherent d = is_set d.gamepad_error ≡ true → is_done gamepad_created d ≡ false

operate-IsCoherent :
    (o : Operation) (d : ConnectionDoctor) → IsCoherent d → IsCoherent (operate o d)
unfolding mark reset_pairing fail_gamepad set_bound_address update_metrics update_network IsCoherent
operate-IsCoherent (marks stage) d h =
    λ e. ground (arith, member-add stage gamepad_created d.completed, h)
operate-IsCoherent resets d h = λ e. ground (
  arith,
  h,
  member-discard datagram_received gamepad_created
      (discard valid_packet (discard code_matched (discard ack_sent d.completed))),
  member-discard valid_packet gamepad_created (discard code_matched (discard ack_sent d.completed)),
  member-discard code_matched gamepad_created (discard ack_sent d.completed),
  member-discard ack_sent gamepad_created d.completed,
)
operate-IsCoherent (fails error) d h =
    λ e. ground (arith, member-discard gamepad_created gamepad_created d.completed)
operate-IsCoherent (binds a) d h = h
operate-IsCoherent (measures m) d h = h
operate-IsCoherent (scans network) d h = h

operate_all-IsCoherent :
    (operations : List Operation) (d : ConnectionDoctor)
    → IsCoherent d
    → IsCoherent (operate_all operations d)
operate_all-IsCoherent [] d h = h
operate_all-IsCoherent (o ∷ operations) d h =
    operate_all-IsCoherent operations (operate o d) (operate-IsCoherent o d h)

-- The milestones without which no connection works; a valid packet stands for its datagram.
abbrev pub is_healthy : ConnectionDoctor → Bool
is_healthy d =
    is_done port_bound d
    && (is_done gamepad_created d
        && (is_done valid_packet d && (is_done code_matched d && is_done ack_sent d)))

coherent_advice :
    (d : ConnectionDoctor)
    → IsCoherent d
    → ((advise d ≡ all_passed) ↔ (is_healthy d ≡ true))
      × (advise d ≡ preflight_failed → is_done gamepad_created d ≡ false)
unfolding advise IsCoherent
coherent_advice d h = ground (arith, h)

pub operate_all_advises :
    (operations : List Operation)
    → ((advise (operate_all operations new_doctor) ≡ all_passed)
        ↔ (is_healthy (operate_all operations new_doctor) ≡ true))
      × (advise (operate_all operations new_doctor) ≡ preflight_failed
          → is_done gamepad_created (operate_all operations new_doctor) ≡ false)
unfolding IsCoherent member
operate_all_advises operations =
    coherent_advice (operate_all operations new_doctor)
      (operate_all-IsCoherent operations new_doctor (λ e. cc))
