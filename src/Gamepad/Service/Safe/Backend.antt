-- ===== src/Gamepad/Service/Safe/Backend.antt =====
-- The methods that create and use the backend keep the safety invariant.
use niw_pspto_pc.Base.{
  ℕ, ◌≡◌, refl, ◌∙◌, Bool, true, false, not, ◌&&◌, ◌||◌, Option, none, some, equals, option_eq, ltb,
  Bool-cases, arith, if◌then◌else◌,
}
use niw_pspto_pc.Receiver.Sequence.{is_fresh}
use niw_pspto_pc.Receiver.State.{address_eq, ReceiverSnapshot}
use niw_pspto_pc.Gamepad.Failure.{Fault, preflight, update}
use niw_pspto_pc.Gamepad.Service.State.{
  Service, Outside, neutralize_backend, emit, connected, gamepad_ready,
}
use niw_pspto_pc.Gamepad.Service.Session.{release_session, open_backend, attempt}
use niw_pspto_pc.Gamepad.Service.Methods.{
  plain_event, fail_backend, run_preflight, forget_failure, ensure_backend, check_backend_retry,
  retry_backend, apply_snapshot, release_other, run_update, handle_snapshot,
}
use niw_pspto_pc.Gamepad.Service.Safe.{
  is_quiet, IsSafe, branch-IsSafe, case-IsSafe, if-IsSafe, emit-IsSafe, fail_backend-IsSafe,
  release_session-IsSafe, absent-quiet,
}

-- What the creation of a backend leaves as it was, and what it ensures.
pub record IsOpening (s : Service) (r : Service × Option Fault) : Type 0 where
  pub idle : r.0.is_connected ≡ s.is_connected
  pub address : r.0.address ≡ s.address
  pub time : r.0.last_update_at ≡ s.last_update_at
  pub silenced : r.0.neutralized_for_silence ≡ s.neutralized_for_silence
  pub failed : r.0.backend_failed ≡ s.backend_failed
  pub stopped : r.0.stopped ≡ s.stopped
  pub quiet : is_quiet s.trace ≡ true → is_quiet r.0.trace ≡ true
  pub works : r.1 ≡ none → r.0.has_backend ≡ true

open_backend-IsOpening : (out : Outside) (s : Service) → IsOpening s (open_backend out s)
unfolding open_backend
open_backend-IsOpening out s = record {
  idle = ground arith;
  address = ground arith;
  time = ground arith;
  silenced = ground arith;
  failed = ground arith;
  stopped = ground arith;
  quiet = ground arith;
  works = ground arith;
}

preflight-IsOpening :
    (out : Outside) (s : Service)
    → IsOpening s (attempt neutralize_backend out.neutralizes (open_backend out s))
unfolding open_backend
preflight-IsOpening out s = record {
  idle = ground arith;
  address = ground arith;
  time = ground arith;
  silenced = ground arith;
  failed = ground arith;
  stopped = ground arith;
  quiet = ground arith;
  works = ground arith;
}

run_preflight-IsSafe :
    (out : Outside) (automatic : Bool) (s : Service)
    → s.is_connected ≡ false
    → s.address ≡ none
    → s.last_update_at ≡ none
    → is_quiet s.trace ≡ true
    → s.stopped ≡ false
    → IsSafe (run_preflight out automatic s).0
unfolding run_preflight
run_preflight-IsSafe out automatic s idle address time quiet going =
    let p = attempt neutralize_backend out.neutralizes (open_backend out s) in
    let o = preflight-IsOpening out s in
    let working : Service = record p.0 {
      backend_failed = false;
      backend_failure = none;
      automatic_retry_due = none;
      automatic_retry_used = false;
    } in
    let still : p.0.is_connected ≡ false = o.idle ∙ idle in
    let running : p.0.stopped ≡ false = o.stopped ∙ going in
    let safe : IsSafe working = record {
      backend = λ e. absurd (ground arith);
      address = λ e. absurd (ground arith);
      time = λ e. absurd (ground arith);
      no_address = λ e. o.address ∙ address;
      no_time = λ e. o.time ∙ time;
      quiet = λ e. o.quiet quiet;
      silenced = λ e. o.quiet quiet;
      failed = λ e. cc;
      stopped = λ e. absurd (ground arith);
    } in
    case-IsSafe p.1 _ (λ fault. fail_backend out fault preflight none automatic p.0)
      (λ worked. emit-IsSafe (plain_event gamepad_ready none "") working safe)
      (λ fault. fail_backend-IsSafe out fault preflight none automatic p.0 (λ _. o.quiet quiet))

pub ensure_backend-IsSafe :
    (out : Outside) (force automatic : Bool) (s : Service)
    → IsSafe s
    → IsSafe (ensure_backend out force automatic s).0
unfolding ensure_backend
ensure_backend-IsSafe out force automatic s h =
    branch-IsSafe s.stopped (s, false) _ (λ _. h)
      (λ going.
        branch-IsSafe (s.backend_failed && not force) (s, false) _ (λ _. h)
          (λ _.
            branch-IsSafe s.has_backend (s, true) _ (λ _. h)
              (λ absent.
                let idle : s.is_connected ≡ false =
                  ground (arith, h.backend, Bool-cases s.is_connected) in
                run_preflight-IsSafe out automatic (forget_failure force automatic s) (ground arith)
                  (ground (arith, h.no_address idle)) (ground (arith, h.no_time idle))
                  (ground (arith, h.quiet idle)) (ground arith))))

pub retry_backend-IsSafe : (out : Outside) (s : Service) → IsSafe s → IsSafe (retry_backend out s).0
unfolding retry_backend
retry_backend-IsSafe out s h = ensure_backend-IsSafe out true false s h

pub check_backend_retry-IsSafe :
    (out : Outside) (now : ℕ) (s : Service) → IsSafe s → IsSafe (check_backend_retry out now s).0
unfolding check_backend_retry
check_backend_retry-IsSafe out now s h =
    case-IsSafe s.automatic_retry_due (s, false) _ (λ _. h)
      (λ due.
        branch-IsSafe (s.stopped || ltb now due) (s, false) _ (λ _. h)
          (λ _.
            ensure_backend-IsSafe out true true
              (record s { automatic_retry_due = none; automatic_retry_used = true })
              (record {
                backend = h.backend;
                address = h.address;
                time = h.time;
                no_address = h.no_address;
                no_time = h.no_time;
                quiet = h.quiet;
                silenced = h.silenced;
                failed = h.failed;
                stopped = h.stopped;
              })))

-- What the attempt to apply a snapshot leaves as it was, and what it ensures.
record IsTried (s : Service) (r : Service × Option Fault) : Type 0 where
  pub failed : r.0.backend_failed ≡ s.backend_failed
  pub stopped : r.0.stopped ≡ s.stopped
  pub absent : r.0.has_backend ≡ false → is_quiet r.0.trace ≡ true
  pub works : r.1 ≡ none → r.0.has_backend ≡ true

abbrev opened : Outside → Service → Service × Option Fault
opened out s = if s.has_backend then (s, none) else open_backend out s

opened-IsTried :
    (out : Outside) (s : Service)
    → (s.has_backend ≡ false → is_quiet s.trace ≡ true)
    → IsTried s (opened out s)
unfolding open_backend
opened-IsTried out s absent = record {
  failed = ground arith;
  stopped = ground arith;
  absent = ground arith;
  works = ground arith;
}

apply_snapshot-IsTried :
    (out : Outside) (snapshot : ReceiverSnapshot) (s : Service) (r : Service × Option Fault)
    → IsTried s r
    → IsTried s (apply_snapshot out snapshot r)
unfolding apply_snapshot
apply_snapshot-IsTried out snapshot s (t, some fault) h = h
apply_snapshot-IsTried out snapshot s (t, none) h = record {
  failed = ground (arith, h.failed);
  stopped = ground (arith, h.stopped);
  absent = ground (arith, h.works refl);
  works = ground (arith, h.works refl);
}

run_update-IsSafe :
    (out : Outside) (snapshot : ReceiverSnapshot) (s : Service)
    → (s.has_backend ≡ false → is_quiet s.trace ≡ true)
    → s.backend_failed ≡ false
    → s.stopped ≡ false
    → IsSafe (run_update out snapshot s).0
unfolding run_update
run_update-IsSafe out snapshot s absent working going =
    let r = apply_snapshot out snapshot (opened out s) in
    let o = apply_snapshot-IsTried out snapshot s (opened out s) (opened-IsTried out s absent) in
    let session : Service = record r.0 {
      is_connected = true;
      address = some snapshot.address;
      last_update_at = some out.now;
      neutralized_for_silence = false;
    } in
    let fine : r.0.backend_failed ≡ false = o.failed ∙ working in
    let running : r.0.stopped ≡ false = o.stopped ∙ going in
    let safe : r.1 ≡ none → IsSafe session = λ ok. record {
      backend = λ e. o.works ok;
      address = λ e. cc;
      time = λ e. cc;
      no_address = λ e. absurd (ground arith);
      no_time = λ e. absurd (ground arith);
      quiet = λ e. absurd (ground arith);
      silenced = λ e. absurd (ground arith);
      failed = λ e. absurd (ground arith);
      stopped = λ e. absurd (ground arith);
    } in
    case-IsSafe r.1 _ (λ fault. fail_backend out fault update (some snapshot.address) false r.0)
      (λ ok.
        if-IsSafe r.0.is_connected session
          (emit (plain_event connected (some snapshot.address) "") session) (safe ok)
          (emit-IsSafe _ session (safe ok)))
      (λ fault. fail_backend-IsSafe out fault update (some snapshot.address) false r.0 o.absent)

-- The release of another client's session leaves what the update needs.
release_other-absent :
    (snapshot : ReceiverSnapshot) (s : Service)
    → IsSafe s
    → (release_other snapshot s).has_backend ≡ false
    → is_quiet (release_other snapshot s).trace ≡ true
release_other-absent snapshot s h = absent-quiet (release_other snapshot s) (
    if-IsSafe (s.is_connected && not (equals s.address (some snapshot.address)))
      (release_session true s) s
      (release_session-IsSafe true s (λ e. cc) (absent-quiet s h) h.failed h.stopped) h)

release_other-same :
    (snapshot : ReceiverSnapshot) (s : Service)
    → ((release_other snapshot s).backend_failed ≡ s.backend_failed)
      × ((release_other snapshot s).stopped ≡ s.stopped)
unfolding release_session
release_other-same snapshot s = ground arith

pub handle_snapshot-IsSafe :
    (out : Outside) (snapshot : ReceiverSnapshot) (s : Service)
    → IsSafe s
    → IsSafe (handle_snapshot out snapshot s).0
unfolding handle_snapshot
handle_snapshot-IsSafe out snapshot s h =
    let (failed, stopped) = release_other-same snapshot s in
    branch-IsSafe (not snapshot.is_state_update || not (is_fresh snapshot.sequence_result.event))
      (s, false) _ (λ _. h)
      (λ _.
        branch-IsSafe (s.stopped || s.backend_failed) (s, false) _ (λ _. h)
          (λ going.
            run_update-IsSafe out snapshot (release_other snapshot s)
              (release_other-absent snapshot s h) (failed ∙ ground arith) (stopped ∙ ground arith)))
