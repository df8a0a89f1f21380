-- ===== src/Doctor/Tests.antt =====
-- A doctor that sees a connection come up, lose its pairing, and fail.
use niw_pspto_pc.Base.{ℕ, zero, suc, ◌≡◌, ◌↔◌, refl, true, false, List, [], ◌∷◌, none}
use niw_pspto_pc.Base.Dict.{member, add, discard}
use niw_pspto_pc.Doctor.{
  port_bound, valid_packet, code_matched, ack_sent, gamepad_created, new_doctor, mark,
  reset_pairing, fail_gamepad, set_bound_address, preflight_failed, all_passed, advise,
}
use niw_pspto_pc.Doctor.Report.{Line, text, guidance, diagnostic_report}
use niw_pspto_pc.Doctor.Laws.{
  Operation, marks, resets, fails, binds, operate_all, is_done, is_healthy, operate_all_advises,
}

abbrev comes_up : List Operation
comes_up =
    binds ("0.0.0.0", 47999)
    ∷ marks port_bound
    ∷ fails "no driver"
    ∷ marks gamepad_created
    ∷ marks valid_packet
    ∷ marks code_matched
    ∷ marks ack_sent
    ∷ []

came_up : advise (operate_all comes_up new_doctor) ≡ all_passed
unfolding advise mark fail_gamepad set_bound_address member add discard
came_up = refl

lost_pairing :
    guidance 47999 (operate_all (resets ∷ []) (operate_all comes_up new_doctor))
    ≡ guidance 47999 (record new_doctor { completed = port_bound ∷ gamepad_created ∷ [] })
unfolding guidance advise mark reset_pairing fail_gamepad set_bound_address member add discard
lost_pairing = refl

abbrev line_at : ℕ → List Line → Line
line_at n [] = []
line_at zero (line ∷ lines) = line
line_at (suc n) (line ∷ lines) = line_at n lines

reported :
    line_at 7 (diagnostic_report "1.0" ("0.0.0.0", 47999) [] none (operate_all comes_up new_doctor))
    ≡ text "- [" ∷ text "OK" ∷ text "] " ∷ text "PORT BOUND" ∷ []
unfolding diagnostic_report mark fail_gamepad set_bound_address member add discard
reported = refl

operate_all_advises_example :
    ((advise (operate_all comes_up new_doctor) ≡ all_passed)
      ↔ (is_healthy (operate_all comes_up new_doctor) ≡ true))
    × (advise (operate_all comes_up new_doctor) ≡ preflight_failed
        → is_done gamepad_created (operate_all comes_up new_doctor) ≡ false)
operate_all_advises_example = operate_all_advises comes_up
