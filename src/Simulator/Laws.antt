-- ===== src/Simulator/Laws.antt =====
-- What the receiver's tracker makes of the simulator's datagrams.
use niw_pspto_pc.Base.{
  ℕ, zero, suc, ◌+◌, ◌-◌, ◌/◌, ◌%◌, ◌^◌, ◌≤◌, ◌<◌, ◌≡◌, refl, List, [], ◌∷◌, Option, none, some,
  All, arith,
}
use niw_pspto_pc.Protocol.{
  Encoded, encoded, raises, encode_packet, decode_packet, ok, err, pairing_token_max,
}
use niw_pspto_pc.Protocol.Packet.{IsSendable, encode_packet_iff, decode_packet-encode_packet}
use niw_pspto_pc.Receiver.Sequence.{
  SequenceTracker, SequenceEvent, SequenceResult, observe, observe_next, delta,
}
use niw_pspto_pc.Simulator.{button_pattern, pattern_at, build_demo_packet}

-- The tracker of a receiver that gets the datagrams: one that does not decode does not reach it.
-- `none` is a datagram that could not be encoded, or a number that `observe` refuses.
unfoldable pub track_datagrams : SequenceTracker → List Encoded → Option SequenceTracker
track_datagrams t [] = some t
track_datagrams t (raises e ∷ rest) = none
track_datagrams t (encoded bytes ∷ rest) = elim (decode_packet bytes) [
  | err e ↦ track_datagrams t rest
  | ok packet ↦ elim (observe t packet.sequence) [
    | none ↦ none
    | some (t', result) ↦ track_datagrams t' rest
  ]
]

pattern_at-All :
    (i : ℕ) (pattern : List ℕ) → All (λ b. b < 2 ^ 32) pattern → pattern_at i pattern < 2 ^ 32
pattern_at-All i [] h = omega arith
pattern_at-All zero (b ∷ pattern) h = h.0
pattern_at-All (suc i) (b ∷ pattern) h = pattern_at-All i pattern h.1

pattern_small : (i : ℕ) → pattern_at (i / 30 % 12) button_pattern < 2 ^ 32
pattern_small i = pattern_at-All (i / 30 % 12) button_pattern (omega arith)

demo-IsSendable :
    (index sequence timestamp token : ℕ)
    → sequence < 2 ^ 32
    → timestamp < 2 ^ 64
    → token ≤ pairing_token_max
    → IsSendable (build_demo_packet index sequence timestamp token)
unfolding build_demo_packet
demo-IsSendable index sequence timestamp token s t k = record {
  sequence = s;
  buttons = pattern_small index;
  analog_x = omega arith;
  analog_y = omega arith;
  timestamp_us = t;
  reserved = refl;
  session_token = (token, refl, k);
}

-- A packet of the simulator reaches the tracker with its number.
pub track_packet :
    (tracker : SequenceTracker) (index sequence timestamp token : ℕ) (rest : List Encoded)
    → sequence < 2 ^ 32
    → timestamp < 2 ^ 64
    → token ≤ pairing_token_max
    → {after : SequenceTracker} {result : SequenceResult}
    → observe tracker sequence ≡ some (after, result)
    → track_datagrams tracker
        (encode_packet (build_demo_packet index sequence timestamp token) ∷ rest)
      ≡ track_datagrams after rest
unfolding track_datagrams build_demo_packet
track_packet tracker index sequence timestamp token rest s t k e =
    let packet = build_demo_packet index sequence timestamp token in
    let (bytes, sent) =
      (encode_packet_iff packet).0 (demo-IsSendable index sequence timestamp token s t k) in
    let (n, back) = decode_packet-encode_packet packet sent in
    rw (sent, track_datagrams, back, e) refl

-- How the tracker takes the next number, one with a gap of one, the same one, and one that is two behind.
pub observe_number :
    (t : SequenceTracker) (last : ℕ)
    → t.last_sequence ≡ some last
    → last < 2 ^ 32
    → (observe t ((last + 1) % 2 ^ 32)
        ≡ some (
          record t { received = t.received + 1; last_sequence = some ((last + 1) % 2 ^ 32) },
          record { event = SequenceEvent.in_order; lost = 0 },
        ))
      × (observe t ((last + 2) % 2 ^ 32)
          ≡ some (
            record t {
              received = t.received + 1;
              last_sequence = some ((last + 2) % 2 ^ 32);
              lost = t.lost + 1;
            },
            record { event = SequenceEvent.gap; lost = 1 },
          ))
      × (observe t last
          ≡ some (
            record t { received = t.received + 1; duplicates = t.duplicates + 1 },
            record { event = SequenceEvent.duplicate; lost = 0 },
          ))
      × (observe t ((last + 2 ^ 32 - 2) % 2 ^ 32)
          ≡ some (
            record t { received = t.received + 1; out_of_order = t.out_of_order + 1 },
            record { event = SequenceEvent.out_of_order; lost = 0 },
          ))
unfolding observe observe_next
observe_number t last e small =
    let next : delta ((last + 1) % 2 ^ 32) last ≡ 1 = omega arith in
    let jump : delta ((last + 2) % 2 ^ 32) last ≡ 2 = omega arith in
    let same : delta last last ≡ 0 = omega arith in
    let back : delta ((last + 2 ^ 32 - 2) % 2 ^ 32) last ≡ 2 ^ 32 - 2 = omega arith in
    (ground arith, ground arith, ground arith, ground arith)
