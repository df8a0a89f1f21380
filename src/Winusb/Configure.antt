-- ===== src/Winusb/Configure.antt =====
-- `_configure_instance` of pc-server/pc_server/winusb_setup.py: the calls of SetupAPI and of the registry
-- for one device, in their order.
use niw_pspto_pc.Base.{ℕ, Bool, true, false, codes, List, [], ◌∷◌, if◌then◌else◌}

abbrev pub winusb_interface_guid : List ℕ
winusb_interface_guid = codes "{25B21F00-3140-49D7-9625-1F109B77ECFA}"

-- What a look into the registry gives: a value, `FileNotFoundError`, or another `OSError`.
pub data Found {ℓ} (A : Type ℓ) : Type ℓ where
  found : A → Found A
  not_found : Found A
  os_error : Found A

-- The values "DeviceInterfaceGUIDs" and "DeviceInterfaceGUID" of a device, as lists of texts.
pub record Parameters : Type 0 where
  pub interface_guids : Found (List (List ℕ))
  pub interface_guid : Found (List (List ℕ))

-- Which calls succeed for the device; a failed one makes the code raise.
pub record Setup : Type 0 where
  pub creates_list : Bool
  pub opens_info : Bool
  pub opens_key : Bool
  pub sets_guids : Bool
  pub sets_guid : Bool
  pub closes_key : Bool

pub data SetupCall : Type 0 where
  create_list open_info open_key set_guids set_guid close_key destroy_list : SetupCall

abbrev written : List (List ℕ)
written = winusb_interface_guid ∷ []

-- An opened key has its parameters.
abbrev pub opened_parameters : Found Parameters → Parameters
opened_parameters (found p) = p
opened_parameters _ = record { interface_guids = not_found; interface_guid = not_found }

-- The two `SetValueEx`: the parameters behind them, whether both return, and the calls so far, the
-- latest first.
unfoldable pub set_values :
    Setup → Parameters → List SetupCall → Found Parameters × Bool × List SetupCall
set_values s p calls =
    if s.sets_guids
    then if s.sets_guid
      then (
        found (record { interface_guids = found written; interface_guid = found written }),
        true,
        set_guid ∷ set_guids ∷ calls,
      )
      else (
        found (record p { interface_guids = found written }),
        false,
        set_guid ∷ set_guids ∷ calls,
      )
    else (found p, false, set_guids ∷ calls)

-- The inner `finally`.
unfoldable pub close_behind :
    Setup → Found Parameters × Bool × List SetupCall → Found Parameters × Bool × List SetupCall
close_behind s (p, ok, calls) = (p, if s.closes_key then ok else false, close_key ∷ calls)

-- The outer `try`.
unfoldable pub open_and_set :
    Setup → Found Parameters → List SetupCall → Found Parameters × Bool × List SetupCall
unfolding set_values close_behind
open_and_set s p calls =
    if s.opens_info
    then if s.opens_key
      then close_behind s (set_values s (opened_parameters p) (open_key ∷ open_info ∷ calls))
      else (p, false, open_key ∷ open_info ∷ calls)
    else (p, false, open_info ∷ calls)

-- The outer `finally`.
unfoldable pub destroy_behind :
    Found Parameters × Bool × List SetupCall → Found Parameters × Bool × List SetupCall
destroy_behind (p, ok, calls) = (p, ok, destroy_list ∷ calls)

-- `_configure_instance`: the parameters behind it, whether it returns, and its calls, the latest first.
unfoldable pub configure_instance :
    Setup → Found Parameters → Found Parameters × Bool × List SetupCall
unfolding open_and_set destroy_behind
configure_instance s p =
    if s.creates_list
    then destroy_behind (open_and_set s p (create_list ∷ []))
    else (p, false, create_list ∷ [])
