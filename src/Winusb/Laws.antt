-- ===== src/Winusb/Laws.antt =====
-- The handles of one setup, and what a repair leaves behind.
use niw_pspto_pc.Base.{
  ℕ, ◌+◌, ◌≡◌, refl, ap, ◌∙◌, Bool, true, false, not, ◌&&◌, List, [], ◌∷◌, ◌++◌, length,
  length-append, arith, Bool-cases, inl, inr, if◌then◌else◌,
}
use mathlib.Core.Path.{sym, subst}
use niw_pspto_pc.Protocol.Pairing.{Unicode}
use niw_pspto_pc.Settings.{text_beq_iff}
use niw_pspto_pc.Winusb.Configure.{
  Found, found, Parameters, Setup, SetupCall, close_key, destroy_list, configure_instance,
  winusb_interface_guid,
}
use niw_pspto_pc.Winusb.{
  Device, WinUsbRepairResult, no_result, succeeded, upper, any_expected, lacks_interface, go_on,
  check_instances, restart_instance, repair_behind, repair_instance, repair_instances, is_empty,
  error_line, instance_prefix,
}

-- How often a handle was given back.
abbrev pub closed_keys : List SetupCall → ℕ
closed_keys [] = 0
closed_keys (close_key ∷ calls) = 1 + closed_keys calls
closed_keys (_ ∷ calls) = closed_keys calls

abbrev pub destroyed_lists : List SetupCall → ℕ
destroyed_lists [] = 0
destroyed_lists (destroy_list ∷ calls) = 1 + destroyed_lists calls
destroyed_lists (_ ∷ calls) = destroyed_lists calls

abbrev pub one_if : Bool → ℕ
one_if b = if b then 1 else 0

-- The parameters with the interface.
abbrev pub registered : Parameters
registered = record {
  interface_guids = found (winusb_interface_guid ∷ []);
  interface_guid = found (winusb_interface_guid ∷ []);
}

-- Whichever call fails, a setup gives back each handle that it got, once: the device list exactly if it
-- was created, and the registry key exactly if it was opened; and it returns only if every call succeeded,
-- with both values of the interface written.
pub configure_instance_lem :
    (s : Setup) (p : Found Parameters)
    → (destroyed_lists (configure_instance s p).2 ≡ one_if s.creates_list)
      × (closed_keys (configure_instance s p).2
          ≡ one_if (s.creates_list && (s.opens_info && s.opens_key)))
      × ((configure_instance s p).1 ≡ (
          s.creates_list
          && (s.opens_info && (s.opens_key && (s.sets_guids && (s.sets_guid && s.closes_key))))))
      × ((configure_instance s p).1 ≡ true → (configure_instance s p).0 ≡ found registered)
unfolding configure_instance
configure_instance_lem s p = ground arith

-- How many devices are there.
abbrev pub count_present : List Device → ℕ
count_present [] = 0
count_present (d ∷ devices) = one_if d.present + count_present devices

-- One device is restarted or has an error; without an error it has its interface.
record IsRepaired (d : Device) (r : WinUsbRepairResult) (b : Device × WinUsbRepairResult)
    : Type 0 where
  counted : length b.1.restarted + length b.1.errors ≡ length r.restarted + length r.errors + 1
  registers :
      is_empty b.1.errors ≡ true → (is_empty r.errors ≡ true) × (b.0.parameters ≡ found registered)
  present_kept : b.0.present ≡ d.present

is_empty-append : (xs : List (List ℕ)) (x : List ℕ) → is_empty (xs ++ x ∷ []) ≡ false
is_empty-append [] x = refl
is_empty-append (y ∷ xs) x = refl

repair_behind-IsRepaired :
    (u : Unicode) (d : Device) (c : Found Parameters × Bool × List SetupCall)
    (restart : List (List ℕ)) (r : WinUsbRepairResult)
    → (c.1 ≡ true → c.0 ≡ found registered)
    → IsRepaired d r (repair_behind u d c restart r)
unfolding repair_behind
repair_behind-IsRepaired u d (p, false, calls) restart r h = record {
  counted = ground (arith, length-append r.errors (error_line u d d.setup_error ∷ []));
  registers =
      λ e. absurd (ground (arith, e, is_empty-append r.errors (error_line u d d.setup_error)));
  present_kept = refl;
}
repair_behind-IsRepaired u d (p, true, calls) [] r h = record {
  counted = ground (arith, length-append r.restarted ((instance_prefix ++ d.name) ∷ []));
  registers = λ e. (e, h refl);
  present_kept = refl;
}
repair_behind-IsRepaired u d (p, true, calls) (e ∷ es) r h = record {
  counted = ground (arith, length-append r.errors (error_line u d e ∷ []));
  registers = λ k. absurd (ground (arith, k, is_empty-append r.errors (error_line u d e)));
  present_kept = refl;
}

repair_instance-IsRepaired :
    (u : Unicode) (d : Device) (r : WinUsbRepairResult) → IsRepaired d r (repair_instance u d r)
unfolding repair_instance
repair_instance-IsRepaired u d r =
    repair_behind-IsRepaired u d (configure_instance d.setup d.parameters)
      (restart_instance u d.restart) r (configure_instance_lem d.setup d.parameters).3

guid_expected :
    (u : Unicode) → any_expected u (winusb_interface_guid ∷ winusb_interface_guid ∷ []) ≡ true
guid_expected u =
    let same =
      (text_beq_iff (upper u winusb_interface_guid) (upper u winusb_interface_guid)).1 refl in
    rw same refl

registered_lem : (u : Unicode) → lacks_interface u (found registered) ≡ found false
unfolding lacks_interface
registered_lem u = rw (guid_expected u) refl

if_then : {A : Type 0} (b : Bool) (x y : A) → b ≡ true → (if b then x else y) ≡ x
if_then true x y h = refl
if_then false x y h = absurd (ground (arith, h))

if_else : {A : Type 0} (b : Bool) (x y : A) → b ≡ false → (if b then x else y) ≡ y
if_else true x y h = absurd (ground (arith, h))
if_else false x y h = refl

repair_there :
    (u : Unicode) (d : Device) (devices : List Device) (r : WinUsbRepairResult)
    → d.present ≡ true
    → let (b, s) = repair_instance u d r in
      repair_instances u (d ∷ devices) r
      ≡ (b ∷ (repair_instances u devices s).0, (repair_instances u devices s).1)
unfolding repair_instances
repair_there u d devices r there = if_else (not d.present) _ _ (ground (arith, there))

repair_gone :
    (u : Unicode) (d : Device) (devices : List Device) (r : WinUsbRepairResult)
    → d.present ≡ false
    → repair_instances u (d ∷ devices) r
      ≡ (d ∷ (repair_instances u devices r).0, (repair_instances u devices r).1)
unfolding repair_instances
repair_gone u d devices r gone = if_then (not d.present) _ _ (ground (arith, gone))

check_registered :
    (u : Unicode) (b : Device) (devices : List Device)
    → b.present ≡ true
    → b.parameters ≡ found registered
    → check_instances u (b ∷ devices) ≡ check_instances u devices
unfolding check_instances
check_registered u b devices there has =
    if_else (not b.present) _ _ (ground (arith, there))
    ∙ ap (λ p. go_on u (lacks_interface u p) (check_instances u devices)) has
    ∙ ap (λ answer. go_on u answer (check_instances u devices)) (registered_lem u)

check_gone :
    (u : Unicode) (b : Device) (devices : List Device)
    → b.present ≡ false
    → check_instances u (b ∷ devices) ≡ check_instances u devices
unfolding check_instances
check_gone u b devices gone = if_then (not b.present) _ _ (ground (arith, gone))

-- What the loop leaves of devices and the result so far.
record IsSettled (u : Unicode) (devices : List Device) (r : WinUsbRepairResult)
    (after : List Device × WinUsbRepairResult) : Type 0 where
  counted :
      length after.1.restarted + length after.1.errors
      ≡ length r.restarted + length r.errors + count_present devices
  settled :
      is_empty after.1.errors ≡ true
      → (is_empty r.errors ≡ true) × (check_instances u after.0 ≡ found false)

repair_instances-IsSettled :
    (u : Unicode) (devices : List Device) (r : WinUsbRepairResult)
    → IsSettled u devices r (repair_instances u devices r)
repair_instances-IsSettled u [] r =
    unfold repair_instances check_instances in
    record { counted = omega arith; settled = λ e. (e, refl) }
repair_instances-IsSettled u (d ∷ devices) r =
    go (repair_instances-IsSettled u devices r)
      (repair_instances-IsSettled u devices (repair_instance u d r).1)
  where
    go :
        IsSettled u devices r (repair_instances u devices r)
        → IsSettled u devices
            (repair_instance u d r).1
            (repair_instances u devices (repair_instance u d r).1)
        → IsSettled u (d ∷ devices) r (repair_instances u (d ∷ devices) r)
    go past rest = elim (Bool-cases d.present) [
      | inl there ↦
          let k = repair_instance-IsRepaired u d r in
          subst (IsSettled u (d ∷ devices) r) (sym (repair_there u d devices r there)) (record {
            counted = ground (arith, rest.counted, k.counted, there);
            settled = λ e.
                let (none_before, fine) = rest.settled e in
                let (none_yet, has) = k.registers none_before in
                (
                  none_yet,
                  check_registered u (repair_instance u d r).0 _ (k.present_kept ∙ there) has
                      ∙ fine,
                );
          })
      | inr gone ↦
          subst (IsSettled u (d ∷ devices) r) (sym (repair_gone u d devices r gone)) (record {
            counted = ground (arith, past.counted, gone);
            settled = λ e.
                let (none_yet, fine) = past.settled e in (none_yet, check_gone u d _ gone ∙ fine);
          })
    ]

pub repair_instances_lem :
    (u : Unicode) (devices : List Device)
    → let (behind, result) = repair_instances u devices no_result in
      (length result.restarted + length result.errors ≡ count_present devices)
      × (succeeded result ≡ true
          → (length result.restarted ≡ count_present devices)
            × (check_instances u behind ≡ found false))
unfolding succeeded
repair_instances_lem u devices =
    let k = repair_instances-IsSettled u devices no_result in
    (
      ground (arith, k.counted),
      λ e. (ground (arith, k.counted, e), (k.settled (ground (arith, e))).1),
    )
