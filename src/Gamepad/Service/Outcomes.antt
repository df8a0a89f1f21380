-- ===== src/Gamepad/Service/Outcomes.antt =====
-- What single methods of `ControllerService` achieve.
use niw_pspto_pc.Base.{
  ℕ, ◌+◌, ◌≤◌, ◌≡◌, refl, sym, ap, ◌∙◌, ◌||◌, Bool, true, false, not, List, [], ◌∷◌, Option, none,
  some, leb, arith, if◌then◌else◌, Option-cases, inl, inr,
}
use niw_pspto_pc.Receiver.Sequence.{is_fresh}
use niw_pspto_pc.Receiver.State.{ReceiverSnapshot, address_eq}
use niw_pspto_pc.Gamepad.Mapping.{Xbox360State, map_packet_to_xbox360}
use niw_pspto_pc.Gamepad.Service.State.{
  Service, Outside, Call, apply_state, neutralize_backend, create_backend, connect_backend,
  disconnect_backend, emit_event,
}
use niw_pspto_pc.Gamepad.Service.Session.{
  release_session, destroy_backend, record_backend_failure, open_backend,
}
use niw_pspto_pc.Gamepad.Service.Methods.{
  fail_backend, run_preflight, ensure_backend, check_backend_retry, apply_snapshot, run_update,
  release_other, handle_snapshot, neutralize_silence, emit_silence, check_timeout,
}
use niw_pspto_pc.Gamepad.Service.Safe.{is_quiet, IsSafe}

-- Once a session has been silent for the neutral timeout, `check_timeout` leaves the neutral output
-- as the last one; it ends the session, and returns true, exactly when the whole timeout is over.
pub check_timeout_silence :
    (now last : ℕ) (s : Service)
    → IsSafe s
    → s.is_connected ≡ true
    → s.last_update_at ≡ some last
    → last + s.config.neutral_timeout ≤ now
    → (is_quiet (check_timeout now s).0.trace ≡ true)
      × ((check_timeout now s).0.is_connected ≡ not (leb (last + s.config.timeout) now))
      × ((check_timeout now s).1 ≡ leb (last + s.config.timeout) now)
unfolding check_timeout release_session neutralize_silence emit_silence
check_timeout_silence now last s h live e silent =
    (ground (arith, h.backend live, h.silenced), ground arith, ground arith)

-- The state that the last output set, if it was not the neutral one.
abbrev pub last_applied : List Call → Option Xbox360State
last_applied [] = none
last_applied (apply_state state ∷ trace) = some state
last_applied (neutralize_backend ∷ trace) = none
last_applied (create_backend ∷ trace) = last_applied trace
last_applied (connect_backend ∷ trace) = last_applied trace
last_applied (disconnect_backend ∷ trace) = last_applied trace
last_applied (emit_event e ∷ trace) = last_applied trace

run_update_applies :
    (out : Outside) (snapshot : ReceiverSnapshot) (s : Service)
    → (run_update out snapshot s).1 ≡ true
    → (x : Xbox360State) × (map_packet_to_xbox360 snapshot.packet ≡ some x)
      × (last_applied (run_update out snapshot s).0.trace ≡ some x)
      × ((run_update out snapshot s).0.address ≡ some snapshot.address)
      × ((run_update out snapshot s).0.last_update_at ≡ some out.now)
unfolding run_update apply_snapshot open_backend fail_backend
run_update_applies out snapshot s e = elim (Option-cases (map_packet_to_xbox360 snapshot.packet)) [
  | inl bad ↦ absurd (ground arith)
  | inr (x, mapped) ↦ (x, mapped, ground arith, ground arith, ground arith)
]

-- A guard that returns false was passed where the result is true.
taken_branch :
    (guard : Bool) (s : Service) (t : Service × Bool)
    → (if guard then (s, false) else t).1 ≡ true
    → (guard ≡ false) × ((if guard then (s, false) else t) ≡ t)
taken_branch true s t e = absurd (ground arith)
taken_branch false s t e = (refl, refl)

-- When `handle_snapshot` returns true, the snapshot is marked as a state update and its sequence
-- event is a fresh one, the service had neither failed nor stopped, the last output is the
-- snapshot's packet as the mapping has it, and the session is its sender's, updated now.
pub handle_snapshot_applies :
    (out : Outside) (snapshot : ReceiverSnapshot) (s : Service)
    → (handle_snapshot out snapshot s).1 ≡ true
    → (snapshot.is_state_update ≡ true)
      × (is_fresh snapshot.sequence_result.event ≡ true)
      × (s.stopped ≡ false)
      × (s.backend_failed ≡ false)
      × (x : Xbox360State) × (map_packet_to_xbox360 snapshot.packet ≡ some x)
      × (last_applied (handle_snapshot out snapshot s).0.trace ≡ some x)
      × ((handle_snapshot out snapshot s).0.address ≡ some snapshot.address)
      × ((handle_snapshot out snapshot s).0.last_update_at ≡ some out.now)
unfolding handle_snapshot
handle_snapshot_applies out snapshot s e =
    let run = run_update out snapshot (release_other snapshot s) in
    let useless = not snapshot.is_state_update || not (is_fresh snapshot.sequence_result.event) in
    let (useful, inner) =
      taken_branch useless s (if s.stopped || s.backend_failed then (s, false) else run) e in
    let (able, same) =
      taken_branch (s.stopped || s.backend_failed) s run
        (ap (λ (r : Service × Bool). r.1) (sym inner) ∙ e) in
    let whole : handle_snapshot out snapshot s ≡ run = inner ∙ same in
    let (x, mapped, applied, address, time) =
      run_update_applies out snapshot (release_other snapshot s)
        (ap (λ (r : Service × Bool). r.1) (sym whole) ∙ e) in
    (
      ground (arith, useful),
      ground (arith, useful),
      ground (arith, able),
      ground (arith, able),
      x,
      mapped,
      ap (λ (r : Service × Bool). last_applied r.0.trace) whole ∙ applied,
      ap (λ (r : Service × Bool). r.0.address) whole ∙ address,
      ap (λ (r : Service × Bool). r.0.last_update_at) whole ∙ time,
    )

-- A retry that is due is used up: none is scheduled after it, and if it fails the episode remembers
-- that its one automatic retry was made.
pub check_backend_retry_once :
    (out : Outside) (now due : ℕ) (s : Service)
    → s.automatic_retry_due ≡ some due
    → s.stopped ≡ false
    → due ≤ now
    → ((check_backend_retry out now s).0.automatic_retry_due ≡ none)
      × ((check_backend_retry out now s).1 ≡ false
          → (check_backend_retry out now s).0.automatic_retry_used ≡ true)
unfolding check_backend_retry ensure_backend run_preflight open_backend fail_backend
    record_backend_failure destroy_backend release_session
check_backend_retry_once out now due s e going late = (ground arith, ground arith)
