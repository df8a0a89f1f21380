-- ===== src/Gamepad/Service/Safe.antt =====
-- The safety invariant of `ControllerService`, kept by the methods that end a session.
pub mod Backend
use niw_pspto_pc.Base.{
  ℕ, ◌+◌, ◌≡◌, ◌≢◌, refl, Bool, true, false, not, ◌&&◌, ◌||◌, String, List, [], ◌∷◌, Option, none,
  some, equals, option_eq, leb, ltb, Bool-cases, Option-cases, inl, inr, arith, if◌then◌else◌,
}
use niw_pspto_pc.Receiver.Sequence.{is_fresh}
use niw_pspto_pc.Receiver.State.{Address, address_eq, ReceiverSnapshot}
use niw_pspto_pc.Gamepad.Mapping.{map_packet_to_xbox360}
use niw_pspto_pc.Gamepad.Failure.{Fault, Phase}
use niw_pspto_pc.Gamepad.Service.State.{
  Service, ServiceConfig, Outside, ControllerEvent, Call, create_backend, connect_backend,
  apply_state, neutralize_backend, disconnect_backend, emit_event, emit, call, neutralized,
  disconnected, new_service,
}
use niw_pspto_pc.Gamepad.Service.Session.{
  release_session, destroy_backend, record_backend_failure, open_backend, attempt,
}
use niw_pspto_pc.Gamepad.Service.Methods.{
  plain_event, fail_backend, ensure_backend, check_backend_retry, apply_snapshot, handle_snapshot,
  neutralize_silence, emit_silence, check_timeout, disconnect, stop,
}

-- Whether the last output sent to the gamepad is the neutral one, or none was sent.
abbrev pub is_quiet : List Call → Bool
is_quiet [] = true
is_quiet (apply_state state ∷ trace) = false
is_quiet (neutralize_backend ∷ trace) = true
is_quiet (create_backend ∷ trace) = is_quiet trace
is_quiet (connect_backend ∷ trace) = is_quiet trace
is_quiet (disconnect_backend ∷ trace) = is_quiet trace
is_quiet (emit_event e ∷ trace) = is_quiet trace

-- A session has a working backend, an address and a time; without a session there is none of
-- them left, and where there is none or it was silenced the last output is neutral. A failed
-- or stopped service has no backend.
pub record IsSafe (s : Service) : Type 0 where
  pub backend : s.is_connected ≡ true → s.has_backend ≡ true
  pub address : s.is_connected ≡ true → s.address ≢ none
  pub time : s.is_connected ≡ true → s.last_update_at ≢ none
  pub no_address : s.is_connected ≡ false → s.address ≡ none
  pub no_time : s.is_connected ≡ false → s.last_update_at ≡ none
  pub quiet : s.is_connected ≡ false → is_quiet s.trace ≡ true
  pub silenced : s.neutralized_for_silence ≡ true → is_quiet s.trace ≡ true
  pub failed : s.backend_failed ≡ true → s.has_backend ≡ false
  pub stopped : s.stopped ≡ true → s.has_backend ≡ false

call-IsSafe :
    (listens : Bool) (e : ControllerEvent) (s : Service)
    → IsSafe s
    → IsSafe (if listens then call (emit_event e) s else s)
call-IsSafe false e s h = h
call-IsSafe true e s h = record {
  backend = h.backend;
  address = h.address;
  time = h.time;
  no_address = h.no_address;
  no_time = h.no_time;
  quiet = h.quiet;
  silenced = h.silenced;
  failed = h.failed;
  stopped = h.stopped;
}

pub emit-IsSafe : (e : ControllerEvent) (s : Service) → IsSafe s → IsSafe (emit e s)
emit-IsSafe e s h = call-IsSafe s.config.has_listener e s h

-- A session ends safely if it was silenced or is silenced now.
pub release_session-IsSafe :
    (neutralize : Bool) (s : Service)
    → (neutralize ≡ false → is_quiet s.trace ≡ true)
    → (s.has_backend ≡ false → is_quiet s.trace ≡ true)
    → (s.backend_failed ≡ true → s.has_backend ≡ false)
    → (s.stopped ≡ true → s.has_backend ≡ false)
    → IsSafe (release_session neutralize s)
unfolding release_session
release_session-IsSafe neutralize s kept absent failed stopped = record {
  backend = ground arith;
  address = ground arith;
  time = ground arith;
  no_address = ground arith;
  no_time = ground arith;
  quiet = ground arith;
  silenced = ground arith;
  failed = ground arith;
  stopped = ground arith;
}

destroy_backend-IsSafe :
    (s : Service) → (s.has_backend ≡ false → is_quiet s.trace ≡ true) → IsSafe (destroy_backend s)
unfolding destroy_backend release_session
destroy_backend-IsSafe s absent = record {
  backend = ground arith;
  address = ground arith;
  time = ground arith;
  no_address = ground arith;
  no_time = ground arith;
  quiet = ground arith;
  silenced = ground arith;
  failed = ground arith;
  stopped = ground arith;
}

destroy_backend-lacks : (s : Service) → (destroy_backend s).has_backend ≡ false
unfolding destroy_backend release_session
destroy_backend-lacks s = ground arith

pub fail_backend-IsSafe :
    (out : Outside) (fault : Fault) (phase : Phase) (a : Option Address) (automatic : Bool)
    (s : Service)
    → (s.has_backend ≡ false → is_quiet s.trace ≡ true)
    → IsSafe (fail_backend out fault phase a automatic s).0
unfolding fail_backend record_backend_failure
fail_backend-IsSafe out fault phase a automatic s absent =
    let gone = destroy_backend s in
    let h = destroy_backend-IsSafe s absent in
    emit-IsSafe (record_backend_failure out fault phase a automatic gone).1
      (record_backend_failure out fault phase a automatic gone).0
      (record {
        backend = h.backend;
        address = h.address;
        time = h.time;
        no_address = h.no_address;
        no_time = h.no_time;
        quiet = h.quiet;
        silenced = h.silenced;
        failed = λ e. destroy_backend-lacks s;
        stopped = h.stopped;
      })

neutralize_silence-IsSafe : (s : Service) → IsSafe s → IsSafe (neutralize_silence s)
unfolding neutralize_silence
neutralize_silence-IsSafe s h = record {
  backend = ground (arith, h.backend);
  address = ground (arith, h.address);
  time = ground (arith, h.time);
  no_address = ground (arith, h.no_address);
  no_time = ground (arith, h.no_time);
  quiet = ground (arith, h.quiet);
  silenced = ground (arith, h.silenced, h.quiet, h.backend, Bool-cases s.is_connected);
  failed = ground (arith, h.failed);
  stopped = ground (arith, h.stopped);
}

neutralize_silence-quiet : (s : Service) → IsSafe s → is_quiet (neutralize_silence s).trace ≡ true
unfolding neutralize_silence
neutralize_silence-quiet s h =
    ground (arith, h.silenced, h.quiet, h.backend, Bool-cases s.is_connected)

pub absent-quiet : (s : Service) → IsSafe s → s.has_backend ≡ false → is_quiet s.trace ≡ true
absent-quiet s h absent = ground (arith, h.backend, h.quiet, Bool-cases s.is_connected)

-- The branches of a method.
pub if-IsSafe : (b : Bool) (s t : Service) → IsSafe s → IsSafe t → IsSafe (if b then s else t)
if-IsSafe true s t h k = h
if-IsSafe false s t h k = k

pub branch-IsSafe :
    (b : Bool) (s t : Service × Bool)
    → (b ≡ true → IsSafe s.0)
    → (b ≡ false → IsSafe t.0)
    → IsSafe (if b then s else t).0
branch-IsSafe true s t h k = h refl
branch-IsSafe false s t h k = k refl

pub case-IsSafe :
    {A : Type 0} (o : Option A) (s : Service × Bool) (f : A → Service × Bool)
    → (o ≡ none → IsSafe s.0)
    → ((a : A) → IsSafe (f a).0)
    → IsSafe (elim o as (λ _. Service × Bool) [ none ↦ s | some a ↦ f a ]).0
case-IsSafe none s f h k = h refl
case-IsSafe (some a) s f h k = k a

emit_silence-IsSafe :
    (s : Service) (released : Bool) (after : Service)
    → IsSafe after
    → IsSafe (emit_silence s released after)
unfolding emit_silence
emit_silence-IsSafe s released after h =
    let first =
      if-IsSafe s.neutralized_for_silence after
        (emit (plain_event neutralized s.address "input-silence") after) h
        (emit-IsSafe _ after h) in
    if-IsSafe released _ _ (emit-IsSafe _ _ first) first

pub check_timeout-IsSafe : (now : ℕ) (s : Service) → IsSafe s → IsSafe (check_timeout now s).0
unfolding check_timeout
check_timeout-IsSafe now s h =
    let k = neutralize_silence-IsSafe s h in
    let quiet = neutralize_silence s in
    case-IsSafe s.last_update_at (s, false) _ (λ _. h)
      (λ last.
        branch-IsSafe (not s.is_connected || ltb now (last + s.config.neutral_timeout)) (s, false) _
          (λ _. h)
          (λ _. emit_silence-IsSafe s _ _ (
            if-IsSafe (leb (last + s.config.timeout) now) (release_session false quiet) quiet
              (release_session-IsSafe false quiet (λ _. neutralize_silence-quiet s h)
                (absent-quiet quiet k) k.failed k.stopped)
              k)))

pub disconnect-IsSafe : (reason : String) (s : Service) → IsSafe s → IsSafe (disconnect reason s)
unfolding disconnect
disconnect-IsSafe reason s h =
    let released = release_session-IsSafe true s (λ e. cc) (absent-quiet s h) h.failed h.stopped in
    if-IsSafe s.is_connected
      (emit (plain_event disconnected s.address reason) (release_session true s))
      (release_session true s) (emit-IsSafe _ _ released) released

disconnect-quiet :
    (reason : String) (s : Service)
    → (s.has_backend ≡ false → is_quiet s.trace ≡ true)
    → (disconnect reason s).has_backend ≡ false
    → is_quiet (disconnect reason s).trace ≡ true
unfolding disconnect release_session
disconnect-quiet reason s absent e = ground arith

pub stop-IsSafe : (s : Service) → IsSafe s → IsSafe (stop s)
unfolding stop
stop-IsSafe s h = if-IsSafe s.stopped s _ h (
    destroy_backend-IsSafe (disconnect "receiver-stopped" (record s { stopped = true }))
      (disconnect-quiet "receiver-stopped" (record s { stopped = true }) (absent-quiet s h)))
