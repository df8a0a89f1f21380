-- ===== src/Simulator/Tests.antt =====
-- A run with every fault of `sequence-errors`.
use niw_pspto_pc.Base.{suc, ◌+◌, ◌≡◌, refl, some, arith}
use niw_pspto_pc.Receiver.Sequence.{SequenceTracker, new_tracker}
use niw_pspto_pc.Simulator.{sequence_errors, send_rounds}
use niw_pspto_pc.Simulator.Laws.{track_datagrams}
use niw_pspto_pc.Simulator.Rounds.{past, send_rounds_tracked}

all_faults :
    past sequence_errors 30 150 + past sequence_errors 60 150 + past sequence_errors 90 150 ≡ 3
all_faults = refl

send_rounds_tracked_example :
    (t : SequenceTracker) × (track_datagrams new_tracker
        (send_rounds sequence_errors (λ i. 5) (λ i. 6) 7 (suc 149) 0 0)
      ≡ some t)
    × (t.received ≡ suc 149 + past sequence_errors 60 (suc 149) + past sequence_errors 90 (suc 149))
    × (t.lost ≡ past sequence_errors 30 (suc 149))
    × (t.duplicates ≡ past sequence_errors 60 (suc 149))
    × (t.out_of_order ≡ past sequence_errors 90 (suc 149))
send_rounds_tracked_example =
    send_rounds_tracked sequence_errors (λ i. 5) (λ i. 6) 7 (λ i. omega arith) (λ i. omega arith)
      (omega arith) 149
