-- ===== src/Receiver/Sequence.antt =====
-- `SequenceTracker` of pc-server/pc_server/receiver.py: a uint32 sequence in serial-number
-- arithmetic.

pub mod Laws
use niw_pspto_pc.Base.{
  ℕ, ◌+◌, ◌-◌, ◌%◌, ◌^◌, ◌≡◌, ◌↔◌, Bool, true, false, Option, none, some, Eq, ltb, ◌==◌, arith,
  if◌then◌else◌,
}

abbrev pub uint32_mask : ℕ
uint32_mask = 2 ^ 32 - 1

abbrev pub uint32_half_range : ℕ
uint32_half_range = 2 ^ 31

pub data SequenceEvent : Type 0 where
  first in_order gap duplicate out_of_order : SequenceEvent

abbrev pub event_beq : SequenceEvent → SequenceEvent → Bool
event_beq first first = true
event_beq in_order in_order = true
event_beq gap gap = true
event_beq duplicate duplicate = true
event_beq out_of_order out_of_order = true
event_beq _ _ = false

pub event_beq_iff : (a b : SequenceEvent) → (event_beq a b ≡ true) ↔ (a ≡ b)
event_beq_iff first b = ground arith
event_beq_iff a b = ground arith

-- The events of `{FIRST, IN_ORDER, GAP}`.
abbrev pub is_fresh : SequenceEvent → Bool
is_fresh first = true
is_fresh in_order = true
is_fresh gap = true
is_fresh duplicate = false
is_fresh out_of_order = false

pub record SequenceResult : Type 0 where
  pub event : SequenceEvent
  pub lost : ℕ

pub record SequenceTracker : Type 0 where
  pub last_sequence : Option ℕ
  pub received : ℕ
  pub lost : ℕ
  pub duplicates : ℕ
  pub out_of_order : ℕ

abbrev pub new_tracker : SequenceTracker
new_tracker = record {
  last_sequence = none;
  received = 0;
  lost = 0;
  duplicates = 0;
  out_of_order = 0;
}

-- `(sequence - last) & UINT32_MASK`, for numbers below 2^32.
abbrev pub delta : ℕ → ℕ → ℕ
delta sequence last = (sequence + 2 ^ 32 - last) % 2 ^ 32

-- The part of `observe` behind the first packet; `t` has counted the packet.
unfoldable pub observe_next : SequenceTracker → ℕ → ℕ → SequenceTracker × SequenceResult
observe_next t last sequence =
    if delta sequence last == 0
    then (record t { duplicates = t.duplicates + 1 }, record { event = duplicate; lost = 0 })
    else if ltb (delta sequence last) uint32_half_range
    then (if delta sequence last == 1
        then (record t { last_sequence = some sequence }, record { event = in_order; lost = 0 })
        else (
          record t { last_sequence = some sequence; lost = t.lost + (delta sequence last - 1) },
          record { event = gap; lost = delta sequence last - 1 },
        ))
    else (record t { out_of_order = t.out_of_order + 1 }, record { event = out_of_order; lost = 0 })

-- `none` is the `ValueError` for a number that is no uint32.
unfoldable pub observe : SequenceTracker → ℕ → Option (SequenceTracker × SequenceResult)
unfolding observe_next
observe t sequence = if ltb uint32_mask sequence then none else elim t.last_sequence [
  | none ↦ some (
    record t { received = t.received + 1; last_sequence = some sequence },
    record { event = first; lost = 0 },
  )
  | some last ↦ some (observe_next (record t { received = t.received + 1 }) last sequence)
]
