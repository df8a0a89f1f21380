-- ===== src/Display/Tests.antt =====
-- A long line, a short one over it, one that comes too soon, and a break.
use niw_pspto_pc.Base.{ℕ, ◌≡◌, refl, true, false, none, some, List, [], ◌∷◌, ◌++◌}
use niw_pspto_pc.Protocol.{pressed_buttons}
use niw_pspto_pc.Receiver.Sequence.{first, in_order, gap}
use niw_pspto_pc.Display.{
  spaces, render, break_line, new_display, ControllerDisplay, auto_mode, named, unknown,
  format_buttons,
}
use niw_pspto_pc.Display.Terminal.{
  DisplayCall, renders, breaks, show_calls, begin, show_calls_latest,
}

abbrev display : ControllerDisplay
display = record {
  live = true;
  refresh_period = 100_000;
  last_render = 0;
  last_width = 0;
  line_active = false;
}

display_is_new : new_display 10 auto_mode true ≡ some display
unfolding new_display
display_is_new = refl

abbrev calls : List DisplayCall
calls =
    renders 500_000 first (97 ∷ 98 ∷ 99 ∷ [])
    ∷ renders 700_000 gap (120 ∷ [])
    ∷ renders 750_000 in_order (121 ∷ [])
    ∷ []

short_line : (show_calls calls (begin display)).screen ≡ 120 ∷ 32 ∷ 32 ∷ []
unfolding show_calls render
short_line = refl

broken : (show_calls (breaks ∷ []) (show_calls calls (begin display))).screen ≡ []
unfolding show_calls render break_line
broken = refl

buttons_named :
    format_buttons (record {
      sequence = 0;
      buttons = 0x1009;
      analog_x = 0;
      analog_y = 0;
      timestamp_us = 0;
      reserved = 0;
      session_token = none;
    })
    ≡ named "UP" ∷ named "RIGHT" ∷ unknown 0x1000 ∷ []
unfolding format_buttons pressed_buttons
buttons_named = refl

show_calls_latest_example :
    (rest : ℕ) × ((show_calls calls (begin display)).screen
      ≡ (show_calls calls (begin display)).latest ++ spaces rest)
show_calls_latest_example = show_calls_latest calls 10 auto_mode true display display_is_new refl
