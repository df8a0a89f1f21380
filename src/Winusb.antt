-- ===== src/Winusb.antt =====
-- pc-server/pc_server/winusb_setup.py: which PSP lacks its WinUSB interface, and the repair. What the
-- registry, SetupAPI, the configuration manager and pnputil answer for a device is given with it.
pub mod Configure
pub mod Laws
mod Tests
use niw_pspto_pc.Base.{
  ℕ, Bool, true, false, not, ◌&&◌, ◌||◌, codes, List, [], ◌∷◌, ◌++◌, equals, length, ltb, ◌==◌,
  if◌then◌else◌,
}
use mathlib.Core.List.{flat_map}
use niw_pspto_pc.Protocol.Pairing.{Unicode, strip}
use niw_pspto_pc.Settings.{text_eq, text_beq}
use niw_pspto_pc.Settings.Number.{decimal}
use niw_pspto_pc.Winusb.Configure.{
  Found, found, not_found, os_error, Parameters, Setup, SetupCall, winusb_interface_guid,
  configure_instance,
}

abbrev pub winusb_service : List ℕ
winusb_service = codes "WINUSB"

-- `rf"USB\VID_054C&PID_01C9\{instance_name}"`
abbrev pub instance_prefix : List ℕ
instance_prefix = codes "USB\\VID_054C&PID_01C9\\"

-- What `subprocess.run` of pnputil gives, or the text of its exception.
pub data Completed : Type 0 where
  completed : ℕ → List ℕ → List ℕ → Completed
  raised : List ℕ → Completed

-- A key below the product's key: its name, how it opens, with the value "Service"; whether the device
-- is present; what its setup and its restart do; the text of the exception of a failed setup; and its
-- parameters in the registry.
pub record Device : Type 0 where
  pub name : List ℕ
  pub key : Found (Found (List ℕ))
  pub present : Bool
  pub setup : Setup
  pub setup_error : List ℕ
  pub restart : Completed
  pub parameters : Found Parameters

pub record WinUsbRepairResult : Type 0 where
  pub configured : List (List ℕ)
  pub restarted : List (List ℕ)
  pub errors : List (List ℕ)

abbrev pub is_empty {ℓ} : {A : Type ℓ} → List A → Bool
is_empty [] = true
is_empty (x ∷ xs) = false

unfoldable pub succeeded : WinUsbRepairResult → Bool
succeeded r = not (is_empty r.configured) && is_empty r.errors

-- A list, or an `OSError` that is not handled.
pub data Listed : Type 0 where
  listed : List Device → Listed
  raises : Listed

module _ (u : Unicode) where
  abbrev pub upper : List ℕ → List ℕ
  upper text = flat_map u.upper text

  -- The loop of `_iter_winusb_psp_instances`; a key that vanished ends it with no instance at all.
  unfoldable pub iter_keys : List Device → List Device → Listed
  iter_keys [] instances = listed instances
  iter_keys (d ∷ devices) instances = elim d.key [
    | not_found ↦ listed []
    | os_error ↦ raises
    | found not_found ↦ iter_keys devices instances
    | found os_error ↦ raises
    | found (found service) ↦
        iter_keys devices
          (instances ++ (if text_beq (upper service) winusb_service then d ∷ [] else []))
  ]

  -- `_iter_winusb_psp_instances`, on the product's key.
  unfoldable pub iter_winusb_psp_instances : Found (List Device) → Listed
  unfolding iter_keys
  iter_winusb_psp_instances not_found = listed []
  iter_winusb_psp_instances os_error = raises
  iter_winusb_psp_instances (found devices) = iter_keys devices []

  abbrev pub any_expected : List (List ℕ) → Bool
  any_expected [] = false
  any_expected (v ∷ values) =
      text_beq (upper v) (upper winusb_interface_guid) || any_expected values

  -- `values`: a name without a value is passed over, any other failure is not handled.
  abbrev read_values : Found (List (List ℕ)) → Found (List (List ℕ)) → Found (List (List ℕ))
  read_values os_error other = os_error
  read_values not_found other = elim other [
    | not_found ↦ found []
    | os_error ↦ os_error
    | found values ↦ found values
  ]
  read_values (found values) other = elim other [
    | not_found ↦ found values
    | os_error ↦ os_error
    | found more ↦ found (values ++ more)
  ]

  -- Whether a present device lacks the interface.
  unfoldable pub lacks_interface : Found Parameters → Found Bool
  lacks_interface not_found = found true
  lacks_interface os_error = os_error
  lacks_interface (found p) = elim (read_values p.interface_guids p.interface_guid) [
    | found values ↦ found (not (any_expected values))
    | _ ↦ os_error
  ]

  -- The loop goes on behind a device that has the interface.
  abbrev pub go_on : Found Bool → Found Bool → Found Bool
  go_on (found false) rest = rest
  go_on answer rest = answer

  -- The loop of `winusb_interface_needs_repair`.
  unfoldable pub check_instances : List Device → Found Bool
  unfolding lacks_interface
  check_instances [] = found false
  check_instances (d ∷ devices) =
      if not d.present
      then check_instances devices
      else go_on (lacks_interface d.parameters) (check_instances devices)

  unfoldable pub winusb_interface_needs_repair : Found (List Device) → Found Bool
  unfolding iter_winusb_psp_instances check_instances
  winusb_interface_needs_repair registry = elim (iter_winusb_psp_instances registry) [
    | listed instances ↦ check_instances instances
    | raises ↦ os_error
  ]

  -- `text or other`
  abbrev or_text : List ℕ → List ℕ → List ℕ
  or_text [] other = other
  or_text (c ∷ text) other = c ∷ text

  -- `_restart_instance`: no text if it returns, else that of its exception.
  unfoldable pub restart_instance : Completed → List (List ℕ)
  restart_instance (raised e) = e ∷ []
  restart_instance (completed code stderr stdout) =
      if code == 0
      then []
      else or_text (or_text (strip u stderr) (strip u stdout))
          (codes "pnputil exited with " ++ decimal code)
        ∷ []

  -- `f"{instance_id}: {exc}"`
  abbrev pub error_line : Device → List ℕ → List ℕ
  error_line d e = (instance_prefix ++ d.name) ++ (codes ": " ++ e)

  -- The `try` of one present device behind `_configure_instance`; the restart is that of
  -- `_restart_instance`.
  unfoldable pub repair_behind :
      Device
      → Found Parameters × Bool × List SetupCall
      → List (List ℕ)
      → WinUsbRepairResult
      → Device × WinUsbRepairResult
  repair_behind d (p, false, calls) restart r = (
    record d { parameters = p },
    record r { errors = r.errors ++ error_line d d.setup_error ∷ [] },
  )
  repair_behind d (p, true, calls) [] r = (
    record d { parameters = p },
    record r {
      configured = r.configured ++ (instance_prefix ++ d.name) ∷ [];
      restarted = r.restarted ++ (instance_prefix ++ d.name) ∷ [];
    },
  )
  repair_behind d (p, true, calls) (e ∷ _) r = (
    record d { parameters = p },
    record r {
      configured = r.configured ++ (instance_prefix ++ d.name) ∷ [];
      errors = r.errors ++ error_line d e ∷ [];
    },
  )

  -- The `try` of one present device, and the device behind it.
  unfoldable pub repair_instance : Device → WinUsbRepairResult → Device × WinUsbRepairResult
  unfolding restart_instance configure_instance repair_behind
  repair_instance d r =
      repair_behind d (configure_instance d.setup d.parameters) (restart_instance d.restart) r

  -- The loop of `repair_winusb_interfaces`, with the devices behind it.
  unfoldable pub repair_instances :
      List Device → WinUsbRepairResult → List Device × WinUsbRepairResult
  unfolding repair_instance
  repair_instances [] r = ([], r)
  repair_instances (d ∷ devices) r =
      if not d.present
      then (d ∷ (repair_instances devices r).0, (repair_instances devices r).1)
      else (
        (repair_instance d r).0 ∷ (repair_instances devices (repair_instance d r).1).0,
        (repair_instances devices (repair_instance d r).1).1,
      )

abbrev pub no_result : WinUsbRepairResult
no_result = record { configured = []; restarted = []; errors = [] }
