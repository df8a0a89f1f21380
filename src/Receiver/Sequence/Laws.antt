-- ===== src/Receiver/Sequence/Laws.antt =====
-- SequenceTracker.observe against serial-number arithmetic.
use niw_pspto_pc.Base.{
  ℕ, ◌+◌, ◌-◌, ◌%◌, ◌^◌, ◌<◌, ◌≡◌, refl, false, Option, none, some, List, [], ◌∷◌, ltb, ◌==◌, All,
  arith, if◌then◌else◌, Bool-cases, inl, inr,
}
use niw_pspto_pc.Receiver.Sequence.{
  SequenceEvent, in_order, gap, duplicate, out_of_order, is_fresh, SequenceTracker, new_tracker,
  uint32_mask, uint32_half_range, delta, observe, observe_next,
}

-- The event of a number `d` steps ahead of the last one, counted modulo 2^32.
abbrev pub event_at : ℕ → SequenceEvent
event_at d =
    if d == 0
    then duplicate
    else if d == 1
    then in_order
    else if ltb d (2 ^ 31)
    then gap
    else out_of_order

abbrev pub lost_at : ℕ → ℕ
lost_at d = if ltb 1 d then (if ltb d (2 ^ 31) then d - 1 else 0) else 0

delta_lem : (last d : ℕ) → last < 2 ^ 32 → d < 2 ^ 32 → delta ((last + d) % 2 ^ 32) last ≡ d
delta_lem last d hl hd = omega arith

-- A number `d` steps ahead of the last one, counted modulo 2^32 and so across the wrap too: it is
-- classified by `d` alone, and counted as received; the packets between are counted as lost, the packet as a
-- duplicate exactly when `d` is 0 and as out of order exactly when `d` is at least 2^31, each once; and
-- the last number moves to it exactly when the event is FIRST, IN_ORDER or GAP.
pub observe_serial :
    (t : SequenceTracker) (last d : ℕ)
    → t.last_sequence ≡ some last
    → last < 2 ^ 32
    → d < 2 ^ 32
    → (t' : SequenceTracker) × (observe t ((last + d) % 2 ^ 32)
        ≡ some (t', record { event = event_at d; lost = lost_at d }))
      × (t'.received ≡ t.received + 1)
      × (t'.lost ≡ t.lost + lost_at d)
      × (t'.duplicates ≡ t.duplicates + (if d == 0 then 1 else 0))
      × (t'.out_of_order ≡ t.out_of_order + (if ltb d (2 ^ 31) then 0 else 1))
      × (t'.last_sequence
          ≡ (if is_fresh (event_at d) then some ((last + d) % 2 ^ 32) else some last))
unfolding observe
observe_serial t last d e hl hd =
    let s = (last + d) % 2 ^ 32 in
    let found : delta s last ≡ d = delta_lem last d hl hd in
    let small : ltb uint32_mask s ≡ false = ground arith in
    (
      (observe_next (record t { received = t.received + 1 }) last s).0,
      ground arith,
      ground arith,
      ground arith,
      ground arith,
      ground arith,
      ground arith,
    )

-- The tracker after a list of packets; `none` if one number is no uint32.
unfoldable pub observe_all : SequenceTracker → List ℕ → Option SequenceTracker
observe_all t [] = some t
observe_all t (s ∷ rest) = elim (observe t s) [ none ↦ none | some (t', _) ↦ observe_all t' rest ]

-- The counters of a tracker that began at the number `start`: `fresh` packets moved it on, every
-- other one was a duplicate or out of order, and the last number is `start` plus the fresh and the
-- lost packets, modulo 2^32.
pub record Accounts (start : ℕ) (t : SequenceTracker) : Type 0 where
  pub last : ℕ
  pub fresh : ℕ
  pub last_eq : t.last_sequence ≡ some last
  pub last_lt : last < 2 ^ 32
  pub received_eq : t.received ≡ 1 + fresh + t.duplicates + t.out_of_order
  pub position : (start + fresh + t.lost) % 2 ^ 32 ≡ last

observe_next-Accounts :
    (start : ℕ) (t : SequenceTracker) (s : ℕ)
    → s < 2 ^ 32
    → (a : Accounts start t)
    → Accounts start (observe_next (record t { received = t.received + 1 }) a.last s).0
unfolding observe_next
observe_next-Accounts start t s h a = elim (Bool-cases (delta s a.last == 0)) [
  | inl same ↦
      let received = a.received_eq in
      rw (same, observe_next)
        (record {
          last = a.last;
          fresh = a.fresh;
          last_eq = a.last_eq;
          last_lt = a.last_lt;
          received_eq = omega arith;
          position = a.position;
        })
  | inr moved ↦ elim (Bool-cases (ltb (delta s a.last) uint32_half_range)) [
    | inr old ↦
        rw (moved, old, observe_next)
          (record {
            last = a.last;
            fresh = a.fresh;
            last_eq = a.last_eq;
            last_lt = a.last_lt;
            received_eq = omega (arith, a.received_eq);
            position = a.position;
          })
    | inl ahead ↦ elim (Bool-cases (delta s a.last == 1)) [
      | inl next ↦
          let one : delta s a.last ≡ 1 = ground arith in
          rw (moved, ahead, next, observe_next)
            (record {
              last = s;
              fresh = a.fresh + 1;
              last_eq = refl;
              last_lt = h;
              received_eq = omega (arith, a.received_eq);
              position = omega (arith, a.position, a.last_lt, one);
            })
      | inr jump ↦
          let far : 1 < delta s a.last = ground arith in
          rw (moved, ahead, jump, observe_next)
            (record {
              last = s;
              fresh = a.fresh + 1;
              last_eq = refl;
              last_lt = h;
              received_eq = omega (arith, a.received_eq);
              position = omega (arith, a.position, a.last_lt, far);
            })
    ]
  ]
]

observe_rest :
    (start : ℕ) (t : SequenceTracker) (rest : List ℕ)
    → All (λ s. s < 2 ^ 32) rest
    → Accounts start t
    → (t' : SequenceTracker) × (observe_all t rest ≡ some t') × Accounts start t'
unfolding observe_all observe
observe_rest start t [] h a = (t, refl, a)
observe_rest start t (s ∷ rest) h a =
    let u = (observe_next (record t { received = t.received + 1 }) a.last s).0 in
    let (t', e, a') = observe_rest start u rest h.1 (observe_next-Accounts start t s h.0 a) in
    let small : ltb uint32_mask s ≡ false = ground arith in (t', ground (arith, a.last_eq), a')

-- After any uint32 numbers a new tracker has counted each packet once, and its loss counter makes
-- up the difference between the fresh packets and the way that the number has come.
pub observe_all-Accounts :
    (s : ℕ) (rest : List ℕ)
    → All (λ n. n < 2 ^ 32) (s ∷ rest)
    → (t : SequenceTracker) × (observe_all new_tracker (s ∷ rest) ≡ some t) × Accounts s t
unfolding observe_all observe
observe_all-Accounts s rest h =
    let small : ltb uint32_mask s ≡ false = ground arith in
    let t : SequenceTracker = record new_tracker { received = 1; last_sequence = some s } in
    let (t', e, a) = observe_rest s t rest h.1 (record {
      last = s;
      fresh = 0;
      last_eq = refl;
      last_lt = h.0;
      received_eq = omega arith;
      position = omega arith;
    }) in
    (t', ground arith, a)
