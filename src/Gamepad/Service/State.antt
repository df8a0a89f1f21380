-- ===== src/Gamepad/Service/State.antt =====
-- The fields of `ControllerService`, and what it does to the gamepad and to its listener.
use niw_pspto_pc.Base.{
  ℕ, Bool, String, List, [], ◌∷◌, Option, none, if◌then◌else◌, ◌==◌, ◌||◌, leb, some, false,
}
use niw_pspto_pc.Receiver.State.{Address}
use niw_pspto_pc.Gamepad.Mapping.{Xbox360State}
use niw_pspto_pc.Gamepad.Failure.{BackendFailureKind, Fault}

pub data ControllerEventType : Type 0 where
  gamepad_ready connected neutralized disconnected error : ControllerEventType

pub record ControllerEvent : Type 0 where
  pub event : ControllerEventType
  pub address : Option Address
  pub reason : String
  pub error_text : Option (List ℕ)
  pub failure : Option BackendFailureKind

-- The calls of the factory, the backend and the listener.
pub data Call : Type 0 where
  create_backend : Call
  connect_backend : Call
  apply_state : Xbox360State → Call
  neutralize_backend : Call
  disconnect_backend : Call
  emit_event : ControllerEvent → Call

-- The arguments of the constructor, `neutral_timeout_s` given.
pub record ServiceConfig : Type 0 where
  pub timeout : ℕ
  pub neutral_timeout : ℕ
  pub backend_retry_delay : ℕ
  pub has_listener : Bool

pub record Service : Type 0 where
  pub config : ServiceConfig
  pub has_backend : Bool
  pub address : Option Address
  pub last_update_at : Option ℕ
  pub neutralized_for_silence : Bool
  pub is_connected : Bool
  pub backend_failed : Bool
  pub backend_failure : Option BackendFailureKind
  pub automatic_retry_due : Option ℕ
  pub automatic_retry_used : Bool
  pub stopped : Bool
  -- All calls so far, the latest first.
  pub trace : List Call

-- How the outside behaves during one method: what the calls raise (`none` is a return), the
-- reading of the clock behind them, and `str.lower`. An exception of a `neutralize` outside the
-- preflight, of `disconnect` and of the listener is swallowed by the code.
pub record Outside : Type 0 where
  pub creates : Option Fault
  pub connects : Option Fault
  pub applies : Option Fault
  pub neutralizes : Option Fault
  pub now : ℕ
  pub lower : List ℕ → List ℕ

-- `ControllerService(...)`; `none` is the `ValueError` for a time that is not positive or a
-- neutral timeout that is not shorter than the timeout.
unfoldable pub new_service : ServiceConfig → Option Service
new_service config =
    if config.timeout == 0
    then none
    else if config.neutral_timeout == 0 || leb config.timeout config.neutral_timeout
    then none
    else if config.backend_retry_delay == 0
    then none
    else some (record {
      config = config;
      has_backend = false;
      address = none;
      last_update_at = none;
      neutralized_for_silence = false;
      is_connected = false;
      backend_failed = false;
      backend_failure = none;
      automatic_retry_due = none;
      automatic_retry_used = false;
      stopped = false;
      trace = [];
    })

abbrev pub call : Call → Service → Service
call c s = record s { trace = c ∷ s.trace }

-- `_emit`
abbrev pub emit : ControllerEvent → Service → Service
emit e s = if s.config.has_listener then call (emit_event e) s else s
