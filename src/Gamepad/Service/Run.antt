-- ===== src/Gamepad/Service/Run.antt =====
-- The life of a `ControllerService`: its methods in every order that its callers and the watchdog
-- thread make.
use niw_pspto_pc.Base.{ℕ, ◌≡◌, refl, ◌∙◌, Bool, true, false, String, some, Bool-cases, arith}
use niw_pspto_pc.Receiver.State.{ReceiverSnapshot}
use niw_pspto_pc.Gamepad.Service.State.{Service, ServiceConfig, Outside, new_service}
use niw_pspto_pc.Gamepad.Service.Session.{release_session, destroy_backend}
use niw_pspto_pc.Gamepad.Service.Methods.{
  ensure_backend, retry_backend, check_backend_retry, handle_snapshot, check_timeout, disconnect,
  stop,
}
use niw_pspto_pc.Gamepad.Service.Safe.{
  is_quiet, IsSafe, check_timeout-IsSafe, disconnect-IsSafe, stop-IsSafe,
}
use niw_pspto_pc.Gamepad.Service.Safe.Backend.{
  ensure_backend-IsSafe, retry_backend-IsSafe, check_backend_retry-IsSafe, handle_snapshot-IsSafe,
}

-- One call.
pub data Use : Service → Service → Type 0 where
  ensures :
      (out : Outside) (force automatic : Bool) (s : Service)
      → Use s (ensure_backend out force automatic s).0
  retries : (out : Outside) (s : Service) → Use s (retry_backend out s).0
  checks_retry : (out : Outside) (now : ℕ) (s : Service) → Use s (check_backend_retry out now s).0
  handles :
      (out : Outside) (snapshot : ReceiverSnapshot) (s : Service)
      → Use s (handle_snapshot out snapshot s).0
  checks_timeout : (now : ℕ) (s : Service) → Use s (check_timeout now s).0
  disconnects : (reason : String) (s : Service) → Use s (disconnect reason s)
  stops : (s : Service) → Use s (stop s)

pub data Life (s : Service) : Service → Type 0 where
  start : Life s s
  further : {t u : Service} → Life s t → Use t u → Life s u

new_service-IsSafe : (config : ServiceConfig) {s : Service} → new_service config ≡ some s → IsSafe s
unfolding new_service
new_service-IsSafe config e = record {
  backend = ground arith;
  address = ground arith;
  time = ground arith;
  no_address = ground arith;
  no_time = ground arith;
  quiet = ground arith;
  silenced = ground arith;
  failed = ground arith;
  stopped = ground arith;
}

Use-IsSafe : {s t : Service} → Use s t → IsSafe s → IsSafe t
Use-IsSafe (ensures out force automatic s) h = ensure_backend-IsSafe out force automatic s h
Use-IsSafe (retries out s) h = retry_backend-IsSafe out s h
Use-IsSafe (checks_retry out now s) h = check_backend_retry-IsSafe out now s h
Use-IsSafe (handles out snapshot s) h = handle_snapshot-IsSafe out snapshot s h
Use-IsSafe (checks_timeout now s) h = check_timeout-IsSafe now s h
Use-IsSafe (disconnects reason s) h = disconnect-IsSafe reason s h
Use-IsSafe (stops s) h = stop-IsSafe s h

pub Life-keeps : {s t : Service} → IsSafe s → Life s t → IsSafe t
Life-keeps h start = h
Life-keeps h (further life step) = Use-IsSafe step (Life-keeps h life)

-- In every state that a new service reaches by its methods in any order, whatever the backend, the
-- clock and the listener do: a session has a backend, an address and a time; without a session
-- there is no address and no time; without a session, and in a silenced one, the last output sent,
-- if any, is the neutral one; and a failed or stopped service has no backend.
pub Life-IsSafe :
    (config : ServiceConfig) (s t : Service) → new_service config ≡ some s → Life s t → IsSafe t
Life-IsSafe config s t e life = Life-keeps (new_service-IsSafe config e) life

-- A stopped service does nothing more.
Use-stopped :
    {s t : Service}
    → Use s t
    → IsSafe s
    → s.stopped ≡ true
    → (t.trace ≡ s.trace) × (t.stopped ≡ true)
unfolding ensure_backend retry_backend check_backend_retry handle_snapshot check_timeout disconnect
    release_session stop
Use-stopped (ensures out force automatic s) h e = ground arith
Use-stopped (retries out s) h e = ground arith
Use-stopped (checks_retry out now s) h e = ground arith
Use-stopped (handles out snapshot s) h e = ground arith
Use-stopped (checks_timeout now s) h e =
    ground (arith, h.stopped e, h.backend, Bool-cases s.is_connected)
Use-stopped (disconnects reason s) h e =
    ground (arith, h.stopped e, h.backend, Bool-cases s.is_connected)
Use-stopped (stops s) h e = ground arith

Life-stopped :
    {s t : Service}
    → IsSafe s
    → s.stopped ≡ true
    → Life s t
    → (t.trace ≡ s.trace) × (t.stopped ≡ true)
Life-stopped h e start = (refl, e)
Life-stopped h e (further life step) =
    let (same, still) = Life-stopped h e life in
    let (same', still') = Use-stopped step (Life-keeps h life) still in (same' ∙ same, still')

stop_stops : (s : Service) → (stop s).stopped ≡ true
unfolding stop destroy_backend disconnect release_session
stop_stops s = ground arith

-- After `stop` of a service in its invariant nothing is sent any more: in every later state the calls
-- are those made by the end of `stop`, the last output sent, if any, is the neutral one, and there
-- is neither a session nor a backend.
pub Life-stop :
    (s t : Service)
    → IsSafe s
    → Life (stop s) t
    → (t.trace ≡ (stop s).trace)
      × (is_quiet t.trace ≡ true)
      × (t.is_connected ≡ false)
      × (t.has_backend ≡ false)
Life-stop s t h life =
    let safe = stop-IsSafe s h in
    let (same, still) = Life-stopped safe (stop_stops s) life in
    let k = Life-keeps safe life in
    let absent : t.has_backend ≡ false = k.stopped still in
    let idle : t.is_connected ≡ false = ground (arith, k.backend, Bool-cases t.is_connected) in
    (same, k.quiet idle, idle, absent)
