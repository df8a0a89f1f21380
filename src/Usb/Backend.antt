-- ===== src/Usb/Backend.antt =====
-- `PyUsbBackend.open` of pc-server/pc_server/usb_transport.py. What the library's calls answer is a
-- parameter.
use niw_pspto_pc.Base.{
  ℕ, ◌+◌, ◌≡◌, Bool, true, false, not, ◌&&◌, List, [], ◌∷◌, Option, none, some, if◌then◌else◌,
  arith,
}
use niw_pspto_pc.Usb.Device.{UsbDevice}
use niw_pspto_pc.Usb.Source.{Attempt, unavailable, no_device, opening_crashes, found_device}

-- The answers: whether the imports succeed; what `find` gives (`none` is an exception, `some` tells
-- whether there is a device); whether the other calls return; and `winusb_interface_needs_repair`,
-- `none` for an exception.
pub record UsbLibrary : Type 0 where
  pub imports : Bool
  pub finds : Option Bool
  pub configures : Bool
  pub claims : Bool
  pub disposes : Bool
  pub needs_repair : Option Bool

pub data UsbCall : Type 0 where
  find_device set_configuration claim_interface dispose_device inspect_registration : UsbCall

-- How `open` ends: `UsbUnavailableError`, its subclass `UsbDriverAccessError`, an exception of
-- `dispose_resources` in the handler, `None`, or a device.
pub data Opening : Type 0 where
  raises_unavailable raises_driver_access raises_other returns_none returns_device : Opening

-- `needs_repair`, `False` after an exception.
abbrev pub repair_or_false : Option Bool → Bool
repair_or_false none = false
repair_or_false (some b) = b

-- The handler round `set_configuration` and `claim_interface`.
unfoldable pub give_up : UsbLibrary → List UsbCall → Opening × List UsbCall
give_up library calls =
    if library.disposes
    then (
      if repair_or_false library.needs_repair then raises_driver_access else raises_unavailable,
      inspect_registration ∷ dispose_device ∷ calls,
    )
    else (raises_other, dispose_device ∷ calls)

-- `set_configuration` and `claim_interface`.
unfoldable pub claim : UsbLibrary → List UsbCall → Opening × List UsbCall
unfolding give_up
claim library calls =
    if library.configures
    then if library.claims
      then (returns_device, claim_interface ∷ set_configuration ∷ calls)
      else give_up library (claim_interface ∷ set_configuration ∷ calls)
    else give_up library (set_configuration ∷ calls)

-- `open`, with its calls, the latest first.
unfoldable pub pyusb_open : UsbLibrary → Opening × List UsbCall
unfolding claim
pyusb_open library =
    if library.imports
    then elim library.finds [
      | none ↦ (raises_unavailable, find_device ∷ [])
      | some found ↦
          if found then claim library (find_device ∷ []) else (returns_none, find_device ∷ [])
    ]
    else (raises_unavailable, [])

-- What `run` makes of it; the device, the rounds it is read and the stop are given.
unfoldable pub attempt_of : UsbDevice → ℕ → Bool → Opening → Attempt
attempt_of device rounds interrupted raises_unavailable = unavailable false
attempt_of device rounds interrupted raises_driver_access = unavailable true
attempt_of device rounds interrupted raises_other = opening_crashes
attempt_of device rounds interrupted returns_none = no_device
attempt_of device rounds interrupted returns_device = found_device device rounds interrupted

-- How often a device was disposed of.
abbrev pub disposals : List UsbCall → ℕ
disposals [] = 0
disposals (dispose_device ∷ calls) = 1 + disposals calls
disposals (_ ∷ calls) = disposals calls

abbrev pub is_returned : Opening → Bool
is_returned returns_device = true
is_returned _ = false

abbrev pub is_found : UsbLibrary → Bool
is_found library = library.imports && repair_or_false library.finds

-- A device that `open` gives was configured and claimed and not disposed of; a device that was found
-- and is not given was disposed of once; and where no device was found nothing was disposed of.
pub pyusb_open_disposes :
    (library : UsbLibrary)
    → ((pyusb_open library).0 ≡ returns_device
        → (pyusb_open library).1 ≡ claim_interface ∷ set_configuration ∷ find_device ∷ [])
      × (disposals (pyusb_open library).1
          ≡ (if is_found library && not (is_returned (pyusb_open library).0) then 1 else 0))
unfolding pyusb_open
pyusb_open_disposes library = (ground arith, ground arith)
