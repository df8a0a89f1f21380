-- ===== src/Receiver/Metrics/Laws.antt =====
-- What `metrics` tells of the active client.
use niw_pspto_pc.Base.{
  ℕ, ◌+◌, ◌*◌, ◌<◌, ◌≤◌, sym, ◌≡◌, refl, ap, ◌∙◌, List, Option, some, length, arith,
}
use niw_pspto_pc.Base.Dict.{lookup, insert, lookup-insert}
use niw_pspto_pc.Receiver.Rate.Laws.{
  keep_recent, Ascending, drop_old-keep_recent, keep_recent-Ascending, keep_recent-keep_recent,
}
use niw_pspto_pc.Receiver.Rate.{drop_old}
use niw_pspto_pc.Receiver.State.{Receiver, ClientState, Address, address_eq}
use niw_pspto_pc.Receiver.Metrics.{
  ReceiverMetrics, age_of, active_state, trim_rate, trim_active, loss_percent, metrics,
}

pub trimmed :
    (now : ℕ) (r : Receiver) (a : Address) (state : ClientState)
    → r.active_client ≡ some a
    → lookup a r.clients ≡ some state
    → trim_active now r ≡ record r { clients = insert a (trim_rate now state) r.clients }
unfolding trim_active
trimmed now r a state held known =
    rw (held, trim_active, known)
      (ap
        (λ (o : Option Address). record r {
          clients = insert a (trim_rate now state) r.clients;
          active_client = o;
        })
        held)

trimmed_state :
    (now : ℕ) (r : Receiver) (a : Address) (state : ClientState)
    → r.active_client ≡ some a
    → lookup a r.clients ≡ some state
    → active_state (trim_active now r) ≡ some (trim_rate now state)
unfolding active_state
trimmed_state now r a state held known =
    ap active_state (trimmed now r a state held known)
    ∙ ground
        (arith, held, lookup-insert a a (trim_rate now state) r.clients, address_eq.beq_iff a a)

loss_share :
    (state : ClientState)
    → let share = loss_percent state in
      (share.0 * (state.sequences.received + state.sequences.lost)
        ≡ 100 * state.sequences.lost * share.1)
      × (0 < share.1)
      × (share.0 ≤ 100 * share.1)
unfolding loss_percent
loss_share state = ground arith

trim_again :
    (now later : ℕ) (state : ClientState)
    → now ≤ later
    → Ascending state.rate.arrivals
    → trim_rate later (trim_rate now state) ≡ trim_rate later state
unfolding trim_rate
trim_again now later state le sorted =
    let first = drop_old-keep_recent now state.rate.arrivals sorted in
    let whole = drop_old-keep_recent later state.rate.arrivals sorted in
    let kept = keep_recent-Ascending now state.rate.arrivals sorted in
    let second = drop_old-keep_recent later (keep_recent now state.rate.arrivals) kept in
    let again = keep_recent-keep_recent now later state.rate.arrivals le in
    ap (λ (times : List ℕ). record state { rate = record { arrivals = times } })
      (ap (λ (times : List ℕ). drop_old later times) first ∙ second ∙ again ∙ sym whole)

-- The metrics of a receiver whose active client has a given state.
abbrev tell : ℕ → Receiver → ClientState → ReceiverMetrics
tell now r state = record {
  datagrams_received = r.datagrams_received;
  valid_packets = r.valid_packets;
  rejected_datagrams = r.rejected_datagrams;
  pairing_rejections = r.pairing_rejections;
  callback_errors = r.callback_errors;
  last_datagram_age = age_of now r.last_datagram_at;
  packets_per_second = length state.rate.arrivals;
  loss_percent = loss_percent state;
}

told :
    (now : ℕ) (r : Receiver) (a : Address) (state : ClientState)
    → r.active_client ≡ some a
    → lookup a r.clients ≡ some state
    → (metrics now r).1 ≡ tell now r (trim_rate now state)
unfolding metrics
told now r a state held known =
    rw (trimmed_state now r a state held known)
      (ap (λ (s : Receiver). tell now s (trim_rate now state)) (trimmed now r a state held known))

-- Asking for the metrics does not change what they tell later.
metrics-metrics :
    (now later : ℕ) (r : Receiver) (a : Address) (state : ClientState)
    → now ≤ later
    → r.active_client ≡ some a
    → lookup a r.clients ≡ some state
    → Ascending state.rate.arrivals
    → (metrics later (metrics now r).0).1 ≡ (metrics later r).1
unfolding metrics
metrics-metrics now later r a state le held known sorted =
    let once : Receiver = record r { clients = insert a (trim_rate now state) r.clients } in
    let present : lookup a once.clients ≡ some (trim_rate now state) =
      ground (arith, lookup-insert a a (trim_rate now state) r.clients, address_eq.beq_iff a a) in
    ap (λ (s : Receiver). (metrics later s).1) (trimmed now r a state held known)
    ∙ told later once a (trim_rate now state) held present
    ∙ ap (λ (s : ClientState). tell later r s) (trim_again now later state le sorted)
    ∙ sym (told later r a state held known)

pub metrics_tell :
    (now later : ℕ) (r : Receiver) (a : Address) (state : ClientState)
    → now ≤ later
    → r.active_client ≡ some a
    → lookup a r.clients ≡ some state
    → Ascending state.rate.arrivals
    → let m = (metrics now r).1 in
      (m.packets_per_second ≡ length (keep_recent now state.rate.arrivals))
      × (m.loss_percent.0 * (state.sequences.received + state.sequences.lost)
          ≡ 100 * state.sequences.lost * m.loss_percent.1)
      × (0 < m.loss_percent.1)
      × (m.loss_percent.0 ≤ 100 * m.loss_percent.1)
      × (m.datagrams_received ≡ r.datagrams_received)
      × (m.valid_packets ≡ r.valid_packets)
      × (m.rejected_datagrams ≡ r.rejected_datagrams)
      × ((metrics later (metrics now r).0).1 ≡ (metrics later r).1)
unfolding trim_rate loss_percent
metrics_tell now later r a state le held known sorted =
    let answer = told now r a state held known in
    let (share, some_packets, bounded) = loss_share state in
    let rate = drop_old-keep_recent now state.rate.arrivals sorted in
    rw answer (
      ap (λ (times : List ℕ). length times) rate,
      share,
      some_packets,
      bounded,
      refl,
      refl,
      refl,
      metrics-metrics now later r a state le held known sorted,
    )
