-- ===== src/Simulator.antt =====
-- The packet generator of pc-server/pc_server/simulator.py: `build_demo_packet` and the sending loop
-- of `main`, without its pauses.
pub mod Laws
pub mod Rounds
mod Tests
use niw_pspto_pc.Base.{
  ℕ, zero, suc, ◌+◌, ◌-◌, ◌*◌, ◌/◌, ◌%◌, ◌^◌, Bool, true, false, ◌&&◌, List, [], ◌∷◌, ◌++◌, Option,
  none, some, ◌==◌, if◌then◌else◌,
}
use niw_pspto_pc.Protocol.{InputPacket, Encoded, encoded, encode_packet}

-- The masks of `BUTTON_PATTERN`.
abbrev pub button_pattern : List ℕ
button_pattern = 0 ∷ 1 ∷ 8 ∷ 2 ∷ 4 ∷ 16 ∷ 32 ∷ 64 ∷ 128 ∷ 256 ∷ 512 ∷ 3072 ∷ []

-- `BUTTON_PATTERN[i]`; an index out of range does not occur.
abbrev pub pattern_at : ℕ → List ℕ → ℕ
pattern_at i [] = 0
pattern_at zero (b ∷ pattern) = b
pattern_at (suc i) (b ∷ pattern) = pattern_at i pattern

unfoldable pub build_demo_packet : ℕ → ℕ → ℕ → ℕ → InputPacket
build_demo_packet index sequence timestamp_us session_token =
    let analog_x = index * 5 % 256 in
    record {
      sequence = sequence;
      buttons = pattern_at (index / 30 % 12) button_pattern;
      analog_x = analog_x;
      analog_y = 255 - analog_x;
      timestamp_us = timestamp_us;
      reserved = 0;
      session_token = some session_token;
    }

pub data Scenario : Type 0 where
  demo sequence_errors : Scenario

abbrev pub has_errors : Scenario → Bool
has_errors demo = false
has_errors sequence_errors = true

-- b"malformed-simulator-datagram"
abbrev pub malformed_datagram : List ℕ
malformed_datagram =
    109 ∷ 97 ∷ 108 ∷ 102 ∷ 111 ∷ 114 ∷ 109 ∷ 101 ∷ 100 ∷ 45 ∷ 115 ∷ 105 ∷ 109 ∷ 117 ∷ 108 ∷ 97 ∷ 116
    ∷ 111 ∷ 114 ∷ 45 ∷ 100 ∷ 97 ∷ 116 ∷ 97 ∷ 103 ∷ 114 ∷ 97 ∷ 109 ∷ []

-- `clock` reads the time at an index, for the packet and, at index 90, for the old one. What
-- `encode_packet` raises is kept in its place; `main` would end there.
module _ (scenario : Scenario) (clock : ℕ → ℕ) (late_clock : ℕ → ℕ) (token : ℕ) where
  -- The gap before the packet at index 30.
  unfoldable pub skip_number : ℕ → ℕ → ℕ
  skip_number index sequence =
      if has_errors scenario && index == 30 then (sequence + 1) % 2 ^ 32 else sequence

  -- The datagram behind the packet, if the scenario has one here.
  unfoldable pub extra_datagrams : ℕ → ℕ → List Encoded
  unfolding build_demo_packet
  extra_datagrams index sequence =
      if has_errors scenario && index == 60
      then encode_packet (build_demo_packet index sequence (clock index) token) ∷ []
      else if has_errors scenario && index == 90
      then encode_packet
          (build_demo_packet index ((sequence + 2 ^ 32 - 2) % 2 ^ 32) (late_clock index) token)
        ∷ []
      else if has_errors scenario && index == 120
      then encoded malformed_datagram ∷ []
      else []

  -- The body of the loop: what is sent at an index with a number.
  unfoldable pub send_round : ℕ → ℕ → List Encoded
  unfolding extra_datagrams
  send_round index sequence =
      encode_packet (build_demo_packet index sequence (clock index) token)
      ∷ extra_datagrams index sequence

  -- The loop, for so many rounds from an index and a number on: `--count`, or until the interrupt.
  unfoldable pub send_rounds : ℕ → ℕ → ℕ → List Encoded
  unfolding skip_number send_round
  send_rounds zero index sequence = []
  send_rounds (suc rounds) index sequence =
      let number = skip_number index sequence in
      send_round index number ++ send_rounds rounds (index + 1) ((number + 1) % 2 ^ 32)
