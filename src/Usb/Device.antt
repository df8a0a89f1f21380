-- ===== src/Usb/Device.antt =====
-- One USB device and the calls on it: `PyUsbDevice` of pc-server/pc_server/usb_transport.py, and
-- the exceptions of the module. The device of the PyUSB library is a parameter: what a call answers
-- is a function of all calls so far.
pub mod Logic
use niw_pspto_pc.Base.{
  ℕ, Bool, true, false, ◌||◌, List, [], ◌∷◌, Option, none, some, ◌==◌, if◌then◌else◌,
}
use niw_pspto_pc.Base.Text.{has_word}
use niw_pspto_pc.Protocol.{Result, ok, err}

-- An exception of PyUSB: `getattr(exc, "errno", None)` and `str(exc)`.
pub record DeviceFault : Type 0 where
  pub errno : Option ℕ
  pub text : List ℕ

pub data Answer {ℓ} (A : Type ℓ) : Type ℓ where
  gives : A → Answer A
  fails : DeviceFault → Answer A

-- The calls on the outside, with their arguments and answers.
pub data Io : Type 0 where
  open_device : Io
  write_to : ℕ → List ℕ → ℕ → Answer ℕ → Io
  read_from : ℕ → ℕ → ℕ → Answer (List ℕ) → Io
  dispose_resources : Io
  call_connected : Io
  call_packet : List ℕ → Io
  call_disconnected : Io
  start_repair : Io
  log_unavailable : Io
  wait_reconnect : Io

-- The library's device: its answers, and `str.lower` of the runtime.
pub record UsbDevice : Type 0 where
  pub read_answer : List Io → Answer (List ℕ)
  pub write_answer : List Io → List ℕ → Answer ℕ
  pub lower : List ℕ → List ℕ

-- Why a `UsbDisconnectedError` is raised.
pub data Disconnect : Type 0 where
  device_error : List ℕ → Disconnect
  bad_hello_size : ℕ → Disconnect
  bad_hello : Disconnect
  short_hello_write : Disconnect
  short_probe_write : Disconnect
  hello_timed_out : Disconnect
  short_async_write : Disconnect

-- `escapes` is any other exception: `struct.error`, or one of a callback.
pub data Outcome {ℓ} (A : Type ℓ) : Type ℓ where
  returns : A → Outcome A
  disconnects : Disconnect → Outcome A
  escapes : Outcome A

-- All calls so far, the latest first; `_closed` of the device; and the state of the callbacks.
pub record World (S : Type 0) : Type 0 where
  pub trace : List Io
  pub closed : Bool
  pub user : S

abbrev pub M : Type 0 → Type 0 → Type 0
M S A = World S → Outcome A × World S

-- What follows a call: the rest, or the exception.
abbrev pub continue_with :
    {S A B : Type 0} → Outcome A → World S → (A → M S B) → Outcome B × World S
continue_with (returns a) w rest = rest a w
continue_with (disconnects why) w rest = (disconnects why, w)
continue_with escapes w rest = (escapes, w)

infixl 5 ◌>>=◌ ◌>>◌
unfoldable pub ◌>>=◌ : {S A B : Type 0} → M S A → (A → M S B) → M S B
◌>>=◌ m f w = continue_with (m w).0 (m w).1 f

abbrev pub ◌>>◌ : {S B : Type 0} → M S (Unit {0}) → M S B → M S B
m >> k = m >>= λ _. k

unfoldable pub pure : {S A : Type 0} → A → M S A
pure a w = (returns a, w)

unfoldable pub disconnect_unless : {S : Type 0} → Bool → Disconnect → M S (Unit {0})
disconnect_unless true why w = (returns tt, w)
disconnect_unless false why w = (disconnects why, w)

-- A `struct.error` is no `UsbDisconnectedError`.
unfoldable pub or_escape : {S A : Type 0} → Result A → M S A
or_escape (ok a) w = (returns a, w)
or_escape (err e) w = (escapes, w)

abbrev pub record_io : {S : Type 0} → Io → World S → World S
record_io io w = record w { trace = io ∷ w.trace }

-- The errno of a timeout, or its text.
unfoldable pub is_timeout : UsbDevice → DeviceFault → Bool
is_timeout device fault = elim fault.errno [
  | none ↦ has_word "timed out" (device.lower fault.text)
  | some n ↦ n == 60 || (n == 110 || (n == 116 || has_word "timed out" (device.lower fault.text)))
]

-- `PyUsbDevice.write`
unfoldable pub write : {S : Type 0} → UsbDevice → ℕ → List ℕ → ℕ → M S ℕ
write device endpoint bytes timeout w =
    let answer = device.write_answer w.trace bytes in
    let after = record_io (write_to endpoint bytes timeout answer) w in
    elim answer [
      | gives n ↦ (returns n, after)
      | fails fault ↦ (disconnects (device_error fault.text), after)
    ]

-- `PyUsbDevice.read`: a timeout gives no bytes.
unfoldable pub read : {S : Type 0} → UsbDevice → ℕ → ℕ → ℕ → M S (List ℕ)
unfolding is_timeout
read device endpoint size timeout w =
    let answer = device.read_answer w.trace in
    let after = record_io (read_from endpoint size timeout answer) w in
    elim answer [
      | gives bytes ↦ (returns bytes, after)
      | fails fault ↦
          if is_timeout device fault
          then (returns [], after)
          else (disconnects (device_error fault.text), after)
    ]

-- `PyUsbDevice.close`: an exception of `dispose_resources` is swallowed.
unfoldable pub close : {S : Type 0} → World S → World S
close w = if w.closed then w else record w { trace = dispose_resources ∷ w.trace; closed = true }
