-- ===== src/Simulator/Rounds.antt =====
-- The rounds of the simulator, as a new tracker counts them.
use niw_pspto_pc.Base.{
  ℕ, zero, suc, ◌+◌, ◌-◌, ◌%◌, ◌^◌, ◌≤◌, ◌<◌, ◌≡◌, refl, ap, ◌∙◌, true, false, ◌&&◌, List, [], ◌∷◌,
  ◌++◌, some, ◌==◌, ltb, Bool-cases, inl, inr, arith, if◌then◌else◌,
}
use mathlib.Core.Path.{subst}
use niw_pspto_pc.Protocol.{Encoded, encoded, encode_packet, decode_packet, pairing_token_max}
use niw_pspto_pc.Struct.{unpack_from}
use niw_pspto_pc.Receiver.Sequence.{
  SequenceTracker, new_tracker, SequenceEvent, SequenceResult, observe,
}
use niw_pspto_pc.Simulator.{
  build_demo_packet, Scenario, has_errors, malformed_datagram, skip_number, extra_datagrams,
  send_round, send_rounds,
}
use niw_pspto_pc.Simulator.Laws.{track_datagrams, track_packet, observe_number}

-- Whether the fault at an index lies behind.
abbrev pub past : Scenario → ℕ → ℕ → ℕ
past scenario k index = if has_errors scenario && ltb k index then 1 else 0

-- The tracker before the round of an index: its last number is one behind, and its counters are those of
-- the faults so far.
pub record IsAbreast (scenario : Scenario) (index sequence : ℕ) (t : SequenceTracker) : Type 0 where
  pub last : ℕ
  pub last_eq : t.last_sequence ≡ some last
  pub last_lt : last < 2 ^ 32
  pub sequence_eq : sequence ≡ (last + 1) % 2 ^ 32
  pub received_eq : t.received ≡ index + past scenario 60 index + past scenario 90 index
  pub lost_eq : t.lost ≡ past scenario 30 index
  pub duplicates_eq : t.duplicates ≡ past scenario 60 index
  pub out_of_order_eq : t.out_of_order ≡ past scenario 90 index

malformed_is_dropped :
    (t : SequenceTracker) (rest : List Encoded)
    → track_datagrams t (encoded malformed_datagram ∷ rest) ≡ track_datagrams t rest
unfolding track_datagrams decode_packet unpack_from
malformed_is_dropped t rest = refl

module _ (scenario : Scenario) (clock late_clock : ℕ → ℕ) (token : ℕ)
    (now_small : (i : ℕ) → clock i < 2 ^ 64) (late_small : (i : ℕ) → late_clock i < 2 ^ 64)
    (token_small : token ≤ pairing_token_max) where
  abbrev number_at : ℕ → ℕ → ℕ
  number_at = skip_number scenario clock late_clock token

  abbrev extra_at : ℕ → ℕ → List Encoded
  extra_at = extra_datagrams scenario clock late_clock token

  -- What a round comes to.
  abbrev Tracked : ℕ → ℕ → SequenceTracker → List Encoded → Type 0
  Tracked index sequence t rest =
      (t' : SequenceTracker) × (track_datagrams t
          (send_round scenario clock late_clock token index (number_at index sequence) ++ rest)
        ≡ track_datagrams t' rest)
      × IsAbreast scenario (index + 1) ((number_at index sequence + 1) % 2 ^ 32) t'

  -- A round is its packet and the datagrams behind it.
  round_tracks :
      (index sequence number : ℕ) (t packet_seen after : SequenceTracker) (result : SequenceResult)
      (extra rest : List Encoded)
      → number_at index sequence ≡ number
      → number < 2 ^ 32
      → observe t number ≡ some (packet_seen, result)
      → extra_at index number ≡ extra
      → track_datagrams packet_seen (extra ++ rest) ≡ track_datagrams after rest
      → IsAbreast scenario (index + 1) ((number + 1) % 2 ^ 32) after
      → Tracked index sequence t rest
  unfolding send_round
  round_tracks index sequence number t packet_seen after result extra rest same small seen behind
        done h =
      (
        after,
        rw same (
            track_packet t index number (clock index) token _ small (now_small index) token_small
              seen
            ∙ ap (λ (xs : List Encoded). track_datagrams packet_seen (xs ++ rest)) behind
            ∙ done),
        rw same h,
      )

  plain_round :
      (index sequence : ℕ) (t : SequenceTracker) (rest : List Encoded)
      → IsAbreast scenario index sequence t
      → (has_errors scenario && index == 30) ≡ false
      → (has_errors scenario && index == 60) ≡ false
      → (has_errors scenario && index == 90) ≡ false
      → Tracked index sequence t rest
  unfolding extra_datagrams skip_number
  plain_round index sequence t rest h no_gap no_copy no_old =
      let s = (h.last + 1) % 2 ^ 32 in
      let (next, jump, same, back) = observe_number t h.last h.last_eq h.last_lt in
      let after : SequenceTracker = record t {
        received = t.received + 1;
        last_sequence = some s;
      } in
      let known : IsAbreast scenario (index + 1) ((s + 1) % 2 ^ 32) after = record {
        last = s;
        last_eq = refl;
        last_lt = omega arith;
        sequence_eq = refl;
        received_eq = ground (arith, h.received_eq);
        lost_eq = ground (arith, h.lost_eq);
        duplicates_eq = ground (arith, h.duplicates_eq);
        out_of_order_eq = ground (arith, h.out_of_order_eq);
      } in
      elim (Bool-cases (has_errors scenario && index == 120)) [
        | inl junk ↦
            round_tracks index sequence s t after after _ (encoded malformed_datagram ∷ []) rest
              (ground (arith, h.sequence_eq)) (omega arith) next (ground arith)
              (malformed_is_dropped after rest) known
        | inr clean ↦
            round_tracks index sequence s t after after _ [] rest (ground (arith, h.sequence_eq))
              (omega arith) next (ground arith) refl known
      ]

  gap_round :
      (index sequence : ℕ) (t : SequenceTracker) (rest : List Encoded)
      → IsAbreast scenario index sequence t
      → (has_errors scenario && index == 30) ≡ true
      → Tracked index sequence t rest
  unfolding extra_datagrams skip_number
  gap_round index sequence t rest h skips =
      let s = (h.last + 2) % 2 ^ 32 in
      let (next, jump, same, back) = observe_number t h.last h.last_eq h.last_lt in
      let after : SequenceTracker = record t {
        received = t.received + 1;
        last_sequence = some s;
        lost = t.lost + 1;
      } in
      let number : (sequence + 1) % 2 ^ 32 ≡ s = omega (arith, h.sequence_eq) in
      round_tracks index sequence s t after after _ [] rest (ground arith) (omega arith) jump
        (ground arith) refl
        (record {
          last = s;
          last_eq = refl;
          last_lt = omega arith;
          sequence_eq = refl;
          received_eq = ground (arith, h.received_eq);
          lost_eq = ground (arith, h.lost_eq);
          duplicates_eq = ground (arith, h.duplicates_eq);
          out_of_order_eq = ground (arith, h.out_of_order_eq);
        })

  copy_round :
      (index sequence : ℕ) (t : SequenceTracker) (rest : List Encoded)
      → IsAbreast scenario index sequence t
      → (has_errors scenario && index == 60) ≡ true
      → Tracked index sequence t rest
  unfolding extra_datagrams skip_number
  copy_round index sequence t rest h copies =
      let s = (h.last + 1) % 2 ^ 32 in
      let (next, jump, same, back) = observe_number t h.last h.last_eq h.last_lt in
      let seen : SequenceTracker = record t { received = t.received + 1; last_sequence = some s } in
      let after : SequenceTracker = record seen {
        received = seen.received + 1;
        duplicates = seen.duplicates + 1;
      } in
      let (next', jump', same', back') = observe_number seen s refl (omega arith) in
      round_tracks index sequence s t seen after _
        (encode_packet (build_demo_packet index s (clock index) token) ∷ []) rest
        (ground (arith, h.sequence_eq)) (omega arith) next (ground arith)
        (track_packet seen index s (clock index) token rest (omega arith) (now_small index)
          token_small same')
        (record {
          last = s;
          last_eq = refl;
          last_lt = omega arith;
          sequence_eq = refl;
          received_eq = ground (arith, h.received_eq);
          lost_eq = ground (arith, h.lost_eq);
          duplicates_eq = ground (arith, h.duplicates_eq);
          out_of_order_eq = ground (arith, h.out_of_order_eq);
        })

  old_round :
      (index sequence : ℕ) (t : SequenceTracker) (rest : List Encoded)
      → IsAbreast scenario index sequence t
      → (has_errors scenario && index == 90) ≡ true
      → Tracked index sequence t rest
  unfolding extra_datagrams skip_number
  old_round index sequence t rest h sends_old =
      let s = (h.last + 1) % 2 ^ 32 in
      let (next, jump, same, back) = observe_number t h.last h.last_eq h.last_lt in
      let seen : SequenceTracker = record t { received = t.received + 1; last_sequence = some s } in
      let after : SequenceTracker = record seen {
        received = seen.received + 1;
        out_of_order = seen.out_of_order + 1;
      } in
      let (next', jump', same', back') = observe_number seen s refl (omega arith) in
      round_tracks index sequence s t seen after _
        (encode_packet
            (build_demo_packet index ((s + 2 ^ 32 - 2) % 2 ^ 32) (late_clock index) token)
          ∷ [])
        rest (ground (arith, h.sequence_eq)) (omega arith) next (ground arith)
        (track_packet seen index ((s + 2 ^ 32 - 2) % 2 ^ 32) (late_clock index) token rest
          (omega arith) (late_small index) token_small back')
        (record {
          last = s;
          last_eq = refl;
          last_lt = omega arith;
          sequence_eq = refl;
          received_eq = ground (arith, h.received_eq);
          lost_eq = ground (arith, h.lost_eq);
          duplicates_eq = ground (arith, h.duplicates_eq);
          out_of_order_eq = ground (arith, h.out_of_order_eq);
        })

  any_round :
      (index sequence : ℕ) (t : SequenceTracker) (rest : List Encoded)
      → IsAbreast scenario index sequence t
      → Tracked index sequence t rest
  any_round index sequence t rest h = elim (Bool-cases (has_errors scenario && index == 30)) [
    | inl skips ↦ gap_round index sequence t rest h skips
    | inr no_gap ↦ elim (Bool-cases (has_errors scenario && index == 60)) [
      | inl copies ↦ copy_round index sequence t rest h copies
      | inr no_copy ↦ elim (Bool-cases (has_errors scenario && index == 90)) [
        | inl sends_old ↦ old_round index sequence t rest h sends_old
        | inr no_old ↦ plain_round index sequence t rest h no_gap no_copy no_old
      ]
    ]
  ]

  rounds_tracked :
      (rounds index sequence : ℕ) (t : SequenceTracker)
      → IsAbreast scenario index sequence t
      → (t' : SequenceTracker) × (track_datagrams t
            (send_rounds scenario clock late_clock token rounds index sequence)
          ≡ some t')
        × ((next : ℕ) × IsAbreast scenario (index + rounds) next t')
  unfolding send_rounds track_datagrams
  rounds_tracked zero index sequence t h =
      (t, refl, (sequence, subst (λ (i : ℕ). IsAbreast scenario i sequence t) (omega arith) h))
  rounds_tracked (suc rounds) index sequence t h =
      let number = number_at index sequence in
      let rest =
        send_rounds scenario clock late_clock token rounds (index + 1) ((number + 1) % 2 ^ 32) in
      let (u, tracked, k) = any_round index sequence t rest h in
      let (t', done, (next, l)) = rounds_tracked rounds (index + 1) ((number + 1) % 2 ^ 32) u k in
      (t', tracked ∙ done, (next, subst (λ (i : ℕ). IsAbreast scenario i next t') (omega arith) l))

  first_round :
      (rest : List Encoded)
      → track_datagrams new_tracker (send_round scenario clock late_clock token 0 0 ++ rest)
        ≡ track_datagrams (record new_tracker { received = 1; last_sequence = some 0 }) rest
  unfolding send_round extra_datagrams observe
  first_round rest =
      track_packet new_tracker 0 0 (clock 0) token _ (omega arith) (now_small 0) token_small
        observed
      ∙ ap
          (λ (xs : List Encoded).
            track_datagrams (record new_tracker { received = 1; last_sequence = some 0 })
              (xs ++ rest))
          bare
    where
      bare : extra_at 0 0 ≡ []
      bare = ground arith

      observed :
          observe new_tracker 0
          ≡ some (
            record new_tracker { received = 1; last_sequence = some 0 },
            record { event = SequenceEvent.first; lost = 0 },
          )
      observed = refl

  rounds_start :
      (rounds : ℕ)
      → send_rounds scenario clock late_clock token (suc rounds) 0 0
        ≡ send_round scenario clock late_clock token 0 0
          ++ send_rounds scenario clock late_clock token rounds 1 1
  unfolding send_rounds skip_number
  rounds_start rounds =
      let same : number_at 0 0 ≡ 0 = ground arith in
      ap
        (λ (n : ℕ).
          send_round scenario clock late_clock token 0 n
          ++ send_rounds scenario clock late_clock token rounds 1 ((n + 1) % 2 ^ 32))
        same

  -- With a code of 25 bits and clocks of 64, all that the simulator sends is encoded, and a new tracker
  -- behind the decoder takes it: after any number of rounds it has received each packet, and counts no
  -- fault in the scenario `demo`, and in `sequence-errors` one lost packet once the index 30 is past, one
  -- duplicate once 60 is, and one packet out of order once 90 is; the malformed datagram never reaches it.
  pub send_rounds_tracked :
      (rounds : ℕ)
      → (t : SequenceTracker) × (track_datagrams new_tracker
            (send_rounds scenario clock late_clock token (suc rounds) 0 0)
          ≡ some t)
        × (t.received ≡ suc rounds + past scenario 60 (suc rounds) + past scenario 90 (suc rounds))
        × (t.lost ≡ past scenario 30 (suc rounds))
        × (t.duplicates ≡ past scenario 60 (suc rounds))
        × (t.out_of_order ≡ past scenario 90 (suc rounds))
  send_rounds_tracked rounds =
      let begun : SequenceTracker = record new_tracker { received = 1; last_sequence = some 0 } in
      let (t, done, (next, l)) = rounds_tracked rounds 1 1 begun (record {
        last = 0;
        last_eq = refl;
        last_lt = omega arith;
        sequence_eq = omega arith;
        received_eq = ground arith;
        lost_eq = ground arith;
        duplicates_eq = ground arith;
        out_of_order_eq = ground arith;
      }) in
      let count : 1 + rounds ≡ suc rounds = omega arith in
      (
        t,
        ap (λ (xs : List Encoded). track_datagrams new_tracker xs) (rounds_start rounds)
            ∙ first_round (send_rounds scenario clock late_clock token rounds 1 1)
            ∙ done,
        rw count at l.received_eq,
        rw count at l.lost_eq,
        rw count at l.duplicates_eq,
        rw count at l.out_of_order_eq,
      )
