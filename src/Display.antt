-- ===== src/Display.antt =====
-- pc-server/pc_server/display.py: the names of the buttons, and `ControllerDisplay`, which writes a
-- status at a bounded rate. Texts are lists of characters' codes; the status line itself is given, since
-- the printing of its numbers belongs to the runtime.
pub mod Terminal
mod Tests
use niw_pspto_pc.Base.{
  ℕ, zero, suc, ◌+◌, ◌-◌, ◌/◌, Bool, true, false, not, ◌&&◌, String, List, [], ◌∷◌, ◌++◌, Option,
  none, some, bit_and, ltb, ◌==◌, length, if◌then◌else◌,
}
use niw_pspto_pc.Protocol.{InputPacket, known_button_mask, pressed_buttons}
use niw_pspto_pc.Receiver.Sequence.{SequenceEvent, first, in_order, gap, duplicate, out_of_order}

-- `BUTTON_ORDER`: the masks with their names.
abbrev pub button_order : List (ℕ × String)
button_order =
    (1, "UP")
    ∷ (2, "DOWN")
    ∷ (4, "LEFT")
    ∷ (8, "RIGHT")
    ∷ (16, "CROSS")
    ∷ (32, "CIRCLE")
    ∷ (64, "SQUARE")
    ∷ (128, "TRIANGLE")
    ∷ (256, "L")
    ∷ (512, "R")
    ∷ (1024, "START")
    ∷ (2048, "SELECT")
    ∷ []

-- `EVENT_LABELS`
abbrev pub event_label : SequenceEvent → String
event_label first = "first"
event_label in_order = "ok"
event_label gap = "gap"
event_label duplicate = "dup"
event_label out_of_order = "ooo"

-- A name, or the mask that is printed as `UNKNOWN(0x…)`.
pub data ButtonText : Type 0 where
  named : String → ButtonText
  unknown : ℕ → ButtonText

-- `self.buttons & ~KNOWN_BUTTON_MASK`
unfoldable pub unknown_buttons : InputPacket → ℕ
unknown_buttons packet = packet.buttons - bit_and packet.buttons known_button_mask

unfoldable pub pressed_names : ℕ → List (ℕ × String) → List ButtonText
pressed_names pressed [] = []
pressed_names pressed ((mask, name) ∷ order) =
    let rest = pressed_names pressed order in
    if bit_and pressed mask == 0 then rest else named name ∷ rest

-- `format_buttons`: the texts that are joined by "+"; "-" stands for none.
unfoldable pub format_buttons : InputPacket → List ButtonText
unfolding unknown_buttons pressed_names
format_buttons packet =
    let names = pressed_names (pressed_buttons packet) button_order in
    let all =
      if unknown_buttons packet == 0
      then names
      else names ++ unknown (unknown_buttons packet) ∷ [] in
    elim all [ [] ↦ named "-" ∷ [] | name ∷ rest ↦ name ∷ rest ]

pub record ControllerDisplay : Type 0 where
  pub live : Bool
  pub refresh_period : ℕ
  pub last_render : ℕ
  pub last_width : ℕ
  pub line_active : Bool

-- `mode`, and whether the stream is a terminal.
pub data DisplayMode : Type 0 where
  auto_mode live_mode lines_mode : DisplayMode

abbrev pub is_live : DisplayMode → Bool → Bool
is_live auto_mode isatty = isatty
is_live live_mode isatty = true
is_live lines_mode isatty = false

-- `ControllerDisplay(...)`, with the period in whole microseconds; `none` is the `ValueError` for a rate
-- that is not positive.
unfoldable pub new_display : ℕ → DisplayMode → Bool → Option ControllerDisplay
new_display refresh_hz mode isatty =
    if refresh_hz == 0
    then none
    else some (record {
      live = is_live mode isatty;
      refresh_period = 1_000_000 / refresh_hz;
      last_render = 0;
      last_width = 0;
      line_active = false;
    })

-- What is written to the stream: a line with its end, a line over the current one, and the end of it.
pub data Written : Type 0 where
  print_line : List ℕ → Written
  rewrite_line : List ℕ → Written
  end_line : Written

abbrev pub is_in_order : SequenceEvent → Bool
is_in_order in_order = true
is_in_order _ = false

unfoldable pub spaces : ℕ → List ℕ
spaces zero = []
spaces (suc n) = 32 ∷ spaces n

-- `render` at the clock's reading `now`, with its formatted line.
unfoldable pub render :
    ℕ → SequenceEvent → List ℕ → ControllerDisplay → ControllerDisplay × List Written
unfolding spaces
render now event line d =
    if is_in_order event && ltb now (d.last_render + d.refresh_period)
    then (d, [])
    else if not d.live
    then (record d { last_render = now }, print_line line ∷ [])
    else (
      record d { last_render = now; last_width = length line; line_active = true },
      rewrite_line (line ++ spaces (d.last_width - length line)) ∷ [],
    )

-- `break_line`, and `finish`.
unfoldable pub break_line : ControllerDisplay → ControllerDisplay × List Written
break_line d =
    if d.live && d.line_active
    then (record d { line_active = false; last_width = 0 }, end_line ∷ [])
    else (d, [])
