-- ===== src/Winusb/Tests.antt =====
-- Two devices, one of which lacks its interface.
use niw_pspto_pc.Base.{◌+◌, ◌≡◌, refl, true, false, ◌&&◌, codes, [], ◌∷◌, length}
use mathlib.Core.List.{flat_map}
use niw_pspto_pc.Protocol.Pairing.{Unicode, ascii_space, ascii_upper}
use niw_pspto_pc.Winusb.Configure.{found, not_found, Setup, configure_instance}
use niw_pspto_pc.Winusb.{
  Device, completed, no_result, succeeded, listed, iter_winusb_psp_instances,
  winusb_interface_needs_repair, check_instances, repair_instances,
}
use niw_pspto_pc.Winusb.Laws.{
  closed_keys, destroyed_lists, one_if, registered, configure_instance_lem, count_present,
  repair_instances_lem,
}

abbrev ascii : Unicode
ascii = record { is_space = ascii_space; upper = λ c. ascii_upper c ∷ [] }

-- The key cannot be closed.
abbrev stuck : Setup
stuck = record {
  creates_list = true;
  opens_info = true;
  opens_key = true;
  sets_guids = true;
  sets_guid = true;
  closes_key = false;
}

abbrev fine : Setup
fine = record stuck { closes_key = true }

configure_instance_lem_example :
    (destroyed_lists (configure_instance stuck not_found).2 ≡ one_if true)
    × (closed_keys (configure_instance stuck not_found).2 ≡ one_if (true && (true && true)))
    × ((configure_instance stuck not_found).1
        ≡ (true && (true && (true && (true && (true && false))))))
    × ((configure_instance stuck not_found).1 ≡ true
        → (configure_instance stuck not_found).0 ≡ found registered)
configure_instance_lem_example = configure_instance_lem stuck not_found

abbrev psp : Device
psp = record {
  name = codes "5&1";
  key = found (found (codes "WinUsb"));
  present = true;
  setup = fine;
  setup_error = [];
  restart = completed 0 [] [];
  parameters = found (record { interface_guids = not_found; interface_guid = not_found });
}

abbrev absent : Device
absent = record psp { name = codes "5&2"; present = false; parameters = not_found }

abbrev hid : Device
hid = record psp { name = codes "5&3"; key = found (found (codes "HidUsb")) }

listed_devices :
    iter_winusb_psp_instances ascii (found (psp ∷ hid ∷ absent ∷ [])) ≡ listed (psp ∷ absent ∷ [])
unfolding iter_winusb_psp_instances flat_map
listed_devices = refl

needs_repair : winusb_interface_needs_repair ascii (found (psp ∷ hid ∷ absent ∷ [])) ≡ found true
unfolding winusb_interface_needs_repair flat_map
needs_repair = refl

repaired : succeeded (repair_instances ascii (psp ∷ absent ∷ []) no_result).1 ≡ true
unfolding succeeded repair_instances
repaired = refl

repair_instances_lem_example :
    let (behind, result) = repair_instances ascii (psp ∷ absent ∷ []) no_result in
    (length result.restarted + length result.errors ≡ count_present (psp ∷ absent ∷ []))
    × (succeeded result ≡ true
        → (length result.restarted ≡ count_present (psp ∷ absent ∷ []))
          × (check_instances ascii behind ≡ found false))
repair_instances_lem_example = repair_instances_lem ascii (psp ∷ absent ∷ [])
