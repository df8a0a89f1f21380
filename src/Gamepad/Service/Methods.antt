-- ===== src/Gamepad/Service/Methods.antt =====
-- The methods of `ControllerService`.
use niw_pspto_pc.Base.{
  ℕ, ◌+◌, Bool, true, false, not, ◌&&◌, ◌||◌, String, codes, Option, none, some, equals, option_eq,
  ltb, leb, if◌then◌else◌,
}
use niw_pspto_pc.Receiver.Sequence.{is_fresh}
use niw_pspto_pc.Receiver.State.{Address, address_eq, ReceiverSnapshot}
use niw_pspto_pc.Gamepad.Mapping.{map_packet_to_xbox360}
use niw_pspto_pc.Gamepad.Failure.{Fault, other_error, Phase, preflight, update}
use niw_pspto_pc.Gamepad.Service.State.{
  Service, Outside, ControllerEventType, ControllerEvent, gamepad_ready, connected, neutralized,
  disconnected, apply_state, neutralize_backend, call, emit,
}
use niw_pspto_pc.Gamepad.Service.Session.{
  release_session, destroy_backend, record_backend_failure, attempt, open_backend,
}

abbrev pub plain_event : ControllerEventType → Option Address → String → ControllerEvent
plain_event event address reason = record {
  event = event;
  address = address;
  reason = reason;
  error_text = none;
  failure = none;
}

-- The handler of both `try` blocks.
unfoldable pub fail_backend :
    Outside → Fault → Phase → Option Address → Bool → Service → Service × Bool
unfolding destroy_backend record_backend_failure
fail_backend out fault phase address automatic s =
    let (failed, event) =
      record_backend_failure out fault phase address automatic (destroy_backend s) in
    (emit event failed, false)

-- The `try` of `ensure_backend`, and what follows it.
unfoldable pub run_preflight : Outside → Bool → Service → Service × Bool
unfolding open_backend fail_backend
run_preflight out automatic s =
    let (tried, outcome) = attempt neutralize_backend out.neutralizes (open_backend out s) in
    elim outcome [
      | some fault ↦ fail_backend out fault preflight none automatic tried
      | none ↦ (
        emit (plain_event gamepad_ready none "") (record tried {
          backend_failed = false;
          backend_failure = none;
          automatic_retry_due = none;
          automatic_retry_used = false;
        }),
        true,
      )
    ]

-- What a forced retry forgets.
abbrev pub forget_failure : Bool → Bool → Service → Service
forget_failure force_retry automatic s =
    if force_retry
    then record s {
      backend_failed = false;
      backend_failure = none;
      automatic_retry_used = if automatic then s.automatic_retry_used else false;
    }
    else s

unfoldable pub ensure_backend : Outside → Bool → Bool → Service → Service × Bool
unfolding run_preflight
ensure_backend out force_retry automatic s =
    if s.stopped
    then (s, false)
    else if s.backend_failed && not force_retry
    then (s, false)
    else if s.has_backend
    then (s, true)
    else run_preflight out automatic (forget_failure force_retry automatic s)

unfoldable pub retry_backend : Outside → Service → Service × Bool
unfolding ensure_backend
retry_backend out s = ensure_backend out true false s

-- The single delayed retry of a failure.
unfoldable pub check_backend_retry : Outside → ℕ → Service → Service × Bool
unfolding ensure_backend
check_backend_retry out now s = elim s.automatic_retry_due [
  | none ↦ (s, false)
  | some due ↦
      if s.stopped || ltb now due
      then (s, false)
      else ensure_backend out true true
          (record s { automatic_retry_due = none; automatic_retry_used = true })
]

-- `self._backend.apply(map_packet_to_xbox360(snapshot.packet))` behind what was tried before.
unfoldable pub apply_snapshot :
    Outside → ReceiverSnapshot → Service × Option Fault → Service × Option Fault
apply_snapshot out snapshot (s, some fault) = (s, some fault)
apply_snapshot out snapshot (s, none) = elim (map_packet_to_xbox360 snapshot.packet) [
  | none ↦
      (s, some (other_error (codes "ValueError") (codes "analog value must be between 0 and 255")))
  | some state ↦ (call (apply_state state) s, out.applies)
]

-- A session of another client is released first.
abbrev pub release_other : ReceiverSnapshot → Service → Service
release_other snapshot s =
    if s.is_connected && not (equals s.address (some snapshot.address))
    then release_session true s
    else s

-- The `try` of `handle_snapshot`, and what follows it.
unfoldable pub run_update : Outside → ReceiverSnapshot → Service → Service × Bool
unfolding open_backend apply_snapshot fail_backend
run_update out snapshot s =
    let (tried, outcome) =
      apply_snapshot out snapshot (if s.has_backend then (s, none) else open_backend out s) in
    elim outcome [
      | some fault ↦ fail_backend out fault update (some snapshot.address) false tried
      | none ↦
          let session = record tried {
            is_connected = true;
            address = some snapshot.address;
            last_update_at = some out.now;
            neutralized_for_silence = false;
          } in
          (
            if tried.is_connected
                then session
                else emit (plain_event connected (some snapshot.address) "") session,
            true,
          )
    ]

unfoldable pub handle_snapshot : Outside → ReceiverSnapshot → Service → Service × Bool
unfolding release_session run_update
handle_snapshot out snapshot s =
    if not snapshot.is_state_update || not (is_fresh snapshot.sequence_result.event)
    then (s, false)
    else if s.stopped || s.backend_failed
    then (s, false)
    else run_update out snapshot (release_other snapshot s)

-- The neutral output of `check_timeout`, which is sent once.
unfoldable pub neutralize_silence : Service → Service
neutralize_silence s =
    if s.neutralized_for_silence
    then s
    else record (if s.has_backend then call neutralize_backend s else s) {
      neutralized_for_silence = true;
    }

-- The events of `check_timeout`, in their order; `s` is the service before.
unfoldable pub emit_silence : Service → Bool → Service → Service
emit_silence s released after =
    let first =
      if s.neutralized_for_silence
      then after
      else emit (plain_event neutralized s.address "input-silence") after in
    if released then emit (plain_event disconnected s.address "timeout") first else first

unfoldable pub check_timeout : ℕ → Service → Service × Bool
unfolding release_session neutralize_silence emit_silence
check_timeout now s = elim s.last_update_at [
  | none ↦ (s, false)
  | some last ↦
      if not s.is_connected || ltb now (last + s.config.neutral_timeout)
      then (s, false)
      else (let released = leb (last + s.config.timeout) now in
          let quiet = neutralize_silence s in
          (
            emit_silence s released (if released then release_session false quiet else quiet),
            released,
          ))
]

unfoldable pub disconnect : String → Service → Service
unfolding release_session
disconnect reason s =
    let released = release_session true s in
    if s.is_connected then emit (plain_event disconnected s.address reason) released else released

unfoldable pub stop : Service → Service
unfolding disconnect destroy_backend
stop s =
    if s.stopped
    then s
    else destroy_backend (disconnect "receiver-stopped" (record s { stopped = true }))
