-- ===== src/Gamepad/Failure.antt =====
-- Why the virtual gamepad fails: `BackendFailureKind` and `_classify_backend_failure` of
-- pc-server/pc_server/gamepad.py. Texts are lists of code points.
use niw_pspto_pc.Base.{ℕ, ◌&&◌, ◌||◌, String, codes, List, ◌++◌, if◌then◌else◌}
use niw_pspto_pc.Base.Text.{has_word}

pub data BackendFailureKind : Type 0 where
  missing_library missing_driver driver_connection update_failed : BackendFailureKind

-- `kind.value`
abbrev pub kind_value : BackendFailureKind → String
kind_value missing_library = "missing-library"
kind_value missing_driver = "missing-driver"
kind_value driver_connection = "driver-connection"
kind_value update_failed = "update-failed"

-- An exception: `GamepadBackendError` with its kind, `ImportError` and its subclasses, and every
-- other class with its name; each with `str(error)`.
pub data Fault : Type 0 where
  backend_error : BackendFailureKind → List ℕ → Fault
  import_error : List ℕ → Fault
  other_error : List ℕ → List ℕ → Fault

abbrev pub message : Fault → List ℕ
message (backend_error kind text) = text
message (import_error text) = text
message (other_error name text) = text

pub data Phase : Type 0 where
  preflight update : Phase

-- The part behind the tests on the exception's class and the phase.
unfoldable pub classify_text : List ℕ → BackendFailureKind
classify_text text =
    if has_word "dll" text && (has_word "not found" text || has_word "winerror 126" text)
    then missing_library
    else if has_word "vigembus" text
        && (has_word "not found" text
            || (has_word "notfound" text || has_word "not installed" text))
    then missing_driver
    else driver_connection

-- `lower` is `str.lower` of the runtime.
unfoldable pub classify_backend_failure : (List ℕ → List ℕ) → Fault → Phase → BackendFailureKind
unfolding classify_text
classify_backend_failure lower (backend_error kind text) phase = kind
classify_backend_failure lower (import_error text) phase = missing_library
classify_backend_failure lower (other_error name text) update = update_failed
classify_backend_failure lower (other_error name text) preflight =
    classify_text (lower (name ++ codes " " ++ text))
