-- ===== src/Gamepad/Mapping.antt =====
-- The mapping of a PSP packet to an Xbox 360 state: `_horizontal_axis`, `_vertical_axis` and
-- `map_packet_to_xbox360` of pc-server/pc_server/gamepad.py.
pub mod Axis
use niw_pspto_pc.Base.{
  ℕ, zero, suc, ◌+◌, ◌-◌, ◌*◌, ◌/◌, ◌%◌, Bool, List, [], ◌∷◌, Option, none, some, bit_and, bit_or,
  ltb, ◌==◌, not, if◌then◌else◌,
}
use niw_pspto_pc.Base.Int.{ℤ, pos, negsuc}
use niw_pspto_pc.Protocol.{InputPacket, pressed_buttons}

-- Python's `round(n / d)`: to the nearest integer, and a half to the even one. The quotients here
-- are far enough from the next half that the division of floats does not matter.
unfoldable pub round_div : ℕ → ℕ → ℕ
round_div n d =
    if ltb (2 * (n % d)) d
    then n / d
    else if ltb d (2 * (n % d))
    then n / d + 1
    else if n / d % 2 == 0
    then n / d
    else n / d + 1

abbrev pub negate : ℕ → ℤ
negate zero = pos 0
negate (suc n) = negsuc n

-- `_horizontal_axis`; `none` is its `ValueError`. Rounding is symmetric, so that
-- `round((value - 128) * 32768 / 128)` is minus the rounded quotient of `128 - value`.
unfoldable pub horizontal_axis : ℕ → Option ℤ
unfolding round_div
horizontal_axis v =
    if ltb 255 v
    then none
    else if ltb v 128
    then some (negate (round_div ((128 - v) * 32768) 128))
    else if ltb 128 v
    then some (pos (round_div ((v - 128) * 32767) 127))
    else some (pos 0)

-- `_vertical_axis`: PSP screen coordinates to a positive-up axis.
unfoldable pub vertical_axis : ℕ → Option ℤ
unfolding round_div
vertical_axis v =
    if ltb 255 v
    then none
    else if ltb v 128
    then some (pos (round_div ((128 - v) * 32767) 128))
    else if ltb 128 v
    then some (negate (round_div ((v - 128) * 32768) 127))
    else some (pos 0)

-- `PSP_TO_XINPUT`: UP, DOWN, LEFT, RIGHT, CROSS, CIRCLE, SQUARE, TRIANGLE, L, R, START, SELECT.
abbrev pub psp_to_xinput : List (ℕ × ℕ)
psp_to_xinput =
    (0x001, 0x0001)
    ∷ (0x002, 0x0002)
    ∷ (0x004, 0x0004)
    ∷ (0x008, 0x0008)
    ∷ (0x010, 0x1000)
    ∷ (0x020, 0x2000)
    ∷ (0x040, 0x4000)
    ∷ (0x080, 0x8000)
    ∷ (0x100, 0x0100)
    ∷ (0x200, 0x0200)
    ∷ (0x400, 0x0010)
    ∷ (0x800, 0x0020)
    ∷ []

-- The loop over the mapping.
unfoldable pub map_buttons : List (ℕ × ℕ) → ℕ → ℕ → ℕ
map_buttons [] pressed buttons = buttons
map_buttons ((psp, xinput) ∷ mapping) pressed buttons =
    map_buttons mapping pressed
      (if bit_and pressed psp == 0 then buttons else bit_or buttons xinput)

pub record Xbox360State : Type 0 where
  pub buttons : ℕ
  pub left_x : ℤ
  pub left_y : ℤ

unfoldable pub map_packet_to_xbox360 : InputPacket → Option Xbox360State
unfolding pressed_buttons map_buttons horizontal_axis vertical_axis
map_packet_to_xbox360 p = elim (horizontal_axis p.analog_x) [
  | none ↦ none
  | some x ↦ elim (vertical_axis p.analog_y) [
    | none ↦ none
    | some y ↦ some (record {
      buttons = map_buttons psp_to_xinput (pressed_buttons p) 0;
      left_x = x;
      left_y = y;
    })
  ]
]
