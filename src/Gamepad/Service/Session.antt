-- ===== src/Gamepad/Service/Session.antt =====
-- The parts that the methods share: `_release_session_locked`, `_destroy_backend_locked`,
-- `_record_backend_failure_locked`, and the creation of the backend.
use niw_pspto_pc.Base.{◌+◌, Bool, true, false, not, ◌&&◌, Option, none, some, if◌then◌else◌}
use niw_pspto_pc.Receiver.State.{Address}
use niw_pspto_pc.Gamepad.Failure.{Fault, Phase, message, kind_value, classify_backend_failure}
use niw_pspto_pc.Gamepad.Service.State.{
  Service, Outside, ControllerEvent, error, Call, create_backend, connect_backend,
  neutralize_backend, disconnect_backend, call,
}

unfoldable pub release_session : Bool → Service → Service
release_session neutralize s =
    let released = record s {
      is_connected = false;
      address = none;
      last_update_at = none;
      neutralized_for_silence = false;
    } in
    if neutralize && s.has_backend then call neutralize_backend released else released

unfoldable pub destroy_backend : Service → Service
unfolding release_session
destroy_backend s =
    let released = release_session false (record s { has_backend = false }) in
    if s.has_backend then call disconnect_backend (call neutralize_backend released) else released

unfoldable pub record_backend_failure :
    Outside → Fault → Phase → Option Address → Bool → Service → Service × ControllerEvent
unfolding classify_backend_failure
record_backend_failure out fault phase address automatic s =
    let kind = classify_backend_failure out.lower fault phase in
    (
      record s {
        backend_failed = true;
        backend_failure = some kind;
        automatic_retry_due =
            if not automatic && not s.automatic_retry_used
            then some (out.now + s.config.backend_retry_delay)
            else none;
      },
      record {
        event = error;
        address = address;
        reason = kind_value kind;
        error_text = some (message fault);
        failure = some kind;
      },
    )

-- One call within a `try`, made if nothing was raised before.
abbrev pub attempt : Call → Option Fault → Service × Option Fault → Service × Option Fault
attempt c outcome (s, some fault) = (s, some fault)
attempt c outcome (s, none) = (call c s, outcome)

-- `self._backend = self._backend_factory(); self._backend.connect()`
unfoldable pub open_backend : Outside → Service → Service × Option Fault
open_backend out s = elim out.creates [
  | some fault ↦ (call create_backend s, some fault)
  | none ↦
      attempt connect_backend out.connects
        (record (call create_backend s) { has_backend = true }, none)
]
