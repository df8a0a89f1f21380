-- ===== src/Gamepad/Service/Refines.antt =====
-- `ControllerService` does what its specification allows, and the gamepad shows what the mode says.
use niw_pspto_pc.Base.{
  ℕ, ◌≡◌, refl, ◌⊎◌, inl, inr, Bool, true, false, not, ◌||◌, String, List, [], ◌∷◌, none, some,
  option_eq, Bool-cases, Option-cases, arith, if◌then◌else◌,
}
use mathlib.Core.Path.{subst}
use niw_pspto_pc.Receiver.Sequence.{is_fresh}
use niw_pspto_pc.Receiver.State.{address_eq, ReceiverSnapshot}
use niw_pspto_pc.Gamepad.Mapping.{map_packet_to_xbox360}
use niw_pspto_pc.Gamepad.Service.State.{
  Service, ServiceConfig, Outside, Call, create_backend, connect_backend, apply_state,
  neutralize_backend, disconnect_backend, emit_event, new_service,
}
use niw_pspto_pc.Gamepad.Service.Session.{
  release_session, destroy_backend, record_backend_failure, open_backend,
}
use niw_pspto_pc.Gamepad.Service.Methods.{
  fail_backend, ensure_backend, retry_backend, check_backend_retry, apply_snapshot, run_update,
  release_other, handle_snapshot, neutralize_silence, emit_silence, check_timeout, disconnect, stop,
}
use niw_pspto_pc.Gamepad.Service.Safe.{is_quiet, IsSafe}
use niw_pspto_pc.Gamepad.Service.Outcomes.{last_applied}
use niw_pspto_pc.Gamepad.Service.Run.{
  Use, ensures, retries, checks_retry, handles, checks_timeout, disconnects, stops, Life, start,
  further, Life-IsSafe, Life-keeps,
}
use niw_pspto_pc.Gamepad.Service.Spec.{
  Mode, absent, ready, live, silenced, failed, halted, Signal, refused, input, opening, tick,
  ending, halting, shown, Allows, Allowed, rests, goes,
}

-- The mode behind the fields.
abbrev pub mode_of : Service → Mode
mode_of s =
    if s.stopped
    then halted
    else if s.backend_failed
    then failed
    else if not s.has_backend
    then absent
    else if not s.is_connected
    then ready
    else if s.neutralized_for_silence
    then silenced s.address
    else live s.address (last_applied s.trace)

ensure_backend-Allows :
    (out : Outside) (force automatic : Bool) (s : Service)
    → IsSafe s
    → Allows opening (mode_of s) (mode_of (ensure_backend out force automatic s).0)
unfolding ensure_backend
ensure_backend-Allows out force automatic s h = ground (arith, h.backend, h.failed)

check_backend_retry-Allows :
    (out : Outside) (now : ℕ) (s : Service)
    → IsSafe s
    → Allows opening (mode_of s) (mode_of (check_backend_retry out now s).0)
unfolding check_backend_retry ensure_backend
check_backend_retry-Allows out now s h = ground (arith, h.backend, h.failed)

check_timeout-Allows :
    (now : ℕ) (s : Service) → IsSafe s → Allows tick (mode_of s) (mode_of (check_timeout now s).0)
unfolding check_timeout release_session neutralize_silence emit_silence
check_timeout-Allows now s h = ground (arith, h.backend, h.failed)

disconnect-Allows :
    (reason : String) (s : Service)
    → IsSafe s
    → Allows ending (mode_of s) (mode_of (disconnect reason s))
unfolding disconnect
disconnect-Allows reason s h = ground (arith, h.backend, h.failed)

stop-Allows : (s : Service) → Allows halting (mode_of s) (mode_of (stop s))
unfolding stop destroy_backend disconnect release_session
stop-Allows s = ground arith

-- What a snapshot means: the mapped packet, if it is a fresh state update.
abbrev pub signal_of : ReceiverSnapshot → Signal
signal_of snapshot =
    if not snapshot.is_state_update || not (is_fresh snapshot.sequence_result.event)
    then refused
    else input snapshot.address (map_packet_to_xbox360 snapshot.packet)

run_update-Allows :
    (out : Outside) (snapshot : ReceiverSnapshot) (s : Service)
    → s.stopped ≡ false
    → s.backend_failed ≡ false
    → (mode_of (run_update out snapshot s).0 ≡ failed)
      ⊎ (mode_of (run_update out snapshot s).0
          ≡ live (some snapshot.address) (map_packet_to_xbox360 snapshot.packet))
unfolding run_update apply_snapshot open_backend fail_backend record_backend_failure destroy_backend
run_update-Allows out snapshot s up works =
    elim (Option-cases (map_packet_to_xbox360 snapshot.packet)) [
      | inl bad ↦ inl (ground arith)
      | inr (x, mapped) ↦ ground arith
    ]

handle_snapshot-Allows :
    (out : Outside) (snapshot : ReceiverSnapshot) (s : Service)
    → IsSafe s
    → Allows (signal_of snapshot) (mode_of s) (mode_of (handle_snapshot out snapshot s).0)
unfolding handle_snapshot release_session
handle_snapshot-Allows out snapshot s h =
    let updated = run_update-Allows out snapshot (release_other snapshot s) in
    elim (Bool-cases
      (not snapshot.is_state_update || not (is_fresh snapshot.sequence_result.event))) [
        | inl stale ↦ rw stale refl
        | inr fresh ↦ rw fresh (ground arith, ground (arith, updated))
      ]

-- What a call means.
abbrev pub signal_of_use : {s t : Service} → Use s t → Signal
signal_of_use (ensures out force automatic s) = opening
signal_of_use (retries out s) = opening
signal_of_use (checks_retry out now s) = opening
signal_of_use (handles out snapshot s) = signal_of snapshot
signal_of_use (checks_timeout now s) = tick
signal_of_use (disconnects reason s) = ending
signal_of_use (stops s) = halting

Use-Allows :
    {s t : Service} (step : Use s t)
    → IsSafe s
    → Allows (signal_of_use step) (mode_of s) (mode_of t)
unfolding check_backend_retry retry_backend
Use-Allows (ensures out force automatic s) h = ensure_backend-Allows out force automatic s h
Use-Allows (retries out s) h = ensure_backend-Allows out true false s h
Use-Allows (checks_retry out now s) h = check_backend_retry-Allows out now s h
Use-Allows (handles out snapshot s) h = handle_snapshot-Allows out snapshot s h
Use-Allows (checks_timeout now s) h = check_timeout-Allows now s h
Use-Allows (disconnects reason s) h = disconnect-Allows reason s h
Use-Allows (stops s) h = stop-Allows s

-- The signals of a life, the latest first.
abbrev pub signals_of : {s t : Service} → Life s t → List Signal
signals_of start = []
signals_of (further life step) = signal_of_use step ∷ signals_of life

Life-Allowed :
    {s t : Service} (life : Life s t) → IsSafe s → Allowed (mode_of s) (signals_of life) (mode_of t)
Life-Allowed start h = rests
Life-Allowed (further life step) h =
    goes (signal_of_use step) (Life-Allowed life h) (Use-Allows step (Life-keeps h life))

quiet_shows_none : (trace : List Call) → is_quiet trace ≡ true → last_applied trace ≡ none
quiet_shows_none [] q = refl
quiet_shows_none (apply_state state ∷ trace) q = cc
quiet_shows_none (neutralize_backend ∷ trace) q = refl
quiet_shows_none (create_backend ∷ trace) q = quiet_shows_none trace q
quiet_shows_none (connect_backend ∷ trace) q = quiet_shows_none trace q
quiet_shows_none (disconnect_backend ∷ trace) q = quiet_shows_none trace q
quiet_shows_none (emit_event e ∷ trace) q = quiet_shows_none trace q

mode_shows : (s : Service) → IsSafe s → last_applied s.trace ≡ shown (mode_of s)
mode_shows s h =
    ground (arith, h.backend, h.failed, h.stopped, h.quiet, h.silenced, quiet_shows_none s.trace)

new_service_is_absent :
    (config : ServiceConfig) {s : Service} → new_service config ≡ some s → mode_of s ≡ absent
unfolding new_service
new_service_is_absent config e = ground arith

-- The service refines its specification: from an absent gamepad, each sequence of calls, in any order and
-- with any behaviour of the backend, the clock and the listener, goes through modes that the
-- specification allows for these calls, and the last output of the gamepad is at each end the one that
-- the mode shows: the mapped input of the live client, and neutral in every other mode.
pub Life-refines :
    (config : ServiceConfig) (s t : Service)
    → new_service config ≡ some s
    → (life : Life s t)
    → Allowed absent (signals_of life) (mode_of t) × (last_applied t.trace ≡ shown (mode_of t))
Life-refines config s t e life =
    let safe = Life-IsSafe config s t e life in
    let began = new_service_is_absent config e in
    (
      subst (λ (m : Mode). Allowed m (signals_of life) (mode_of t)) began
          (Life-Allowed life (Life-IsSafe config s s e start)),
      mode_shows t safe,
    )
