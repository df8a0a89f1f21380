-- ===== src/Receiver/Metrics.antt =====
-- The counters that `UdpReceiver` of pc-server/pc_server/receiver.py gives out: `metrics` and the
-- read-only properties.
pub mod Laws
pub mod Consistent
use niw_pspto_pc.Base.{
  ℕ, List, [], ◌∷◌, ltb, ◌+◌, ◌-◌, ◌*◌, ◌≡◌, Bool, true, false, Option, none, some, ◌==◌, length,
  if◌then◌else◌, arith, refl, ap, ◌∙◌, Option-cases, inl, inr,
}
use niw_pspto_pc.Base.Dict.{lookup, insert, lookup-insert}
use niw_pspto_pc.Receiver.Rate.{RateTracker, drop_old}
use niw_pspto_pc.Receiver.Cache.{expire}
use niw_pspto_pc.Receiver.State.{Receiver, ClientState, Address, address_eq}

-- `loss_percent` is the quotient of its two numbers.
pub record ReceiverMetrics : Type 0 where
  pub datagrams_received : ℕ
  pub valid_packets : ℕ
  pub rejected_datagrams : ℕ
  pub pairing_rejections : ℕ
  pub callback_errors : ℕ
  pub last_datagram_age : Option ℕ
  pub packets_per_second : ℕ
  pub loss_percent : ℕ × ℕ

-- The state of the active client, if it has one.
unfoldable pub active_state : Receiver → Option ClientState
active_state r = elim r.active_client [ none ↦ none | some a ↦ lookup a r.clients ]

-- Its arrivals without those that are too old.
unfoldable pub trim_rate : ℕ → ClientState → ClientState
trim_rate now state = record state { rate = record { arrivals = drop_old now state.rate.arrivals } }

-- The object is shared: the client's entry sees the trimmed arrivals.
unfoldable pub trim_active : ℕ → Receiver → Receiver
unfolding trim_rate
trim_active now r = elim r.active_client [
  | none ↦ r
  | some a ↦ elim (lookup a r.clients) [
    | none ↦ r
    | some state ↦ record r { clients = insert a (trim_rate now state) r.clients }
  ]
]

unfoldable pub loss_percent : ClientState → ℕ × ℕ
loss_percent state =
    let total = state.sequences.received + state.sequences.lost in
    if total == 0 then (0, 1) else (state.sequences.lost * 100, total)

abbrev pub rate_of : Option ClientState → ℕ
rate_of none = 0
rate_of (some state) = length state.rate.arrivals

abbrev pub loss_of : Option ClientState → ℕ × ℕ
loss_of none = (0, 1)
loss_of (some state) = loss_percent state

-- `max(0.0, checked_at - last)`
abbrev pub age_of : ℕ → Option ℕ → Option ℕ
age_of now none = none
age_of now (some last) = some (now - last)

-- `metrics(now=...)`
unfoldable pub metrics : ℕ → Receiver → Receiver × ReceiverMetrics
unfolding active_state trim_active loss_percent
metrics now r =
    let trimmed = trim_active now r in
    let state = active_state trimmed in
    (
      trimmed,
      record {
        datagrams_received = trimmed.datagrams_received;
        valid_packets = trimmed.valid_packets;
        rejected_datagrams = trimmed.rejected_datagrams;
        pairing_rejections = trimmed.pairing_rejections;
        callback_errors = trimmed.callback_errors;
        last_datagram_age = age_of now trimmed.last_datagram_at;
        packets_per_second = rate_of state;
        loss_percent = loss_of state;
      },
    )

-- `client_count`
unfoldable pub client_count : Receiver → ℕ
client_count r = length r.clients

-- `rejected_pairing_cache_size`
unfoldable pub rejected_pairing_cache_size : ℕ → Receiver → Receiver × ℕ
rejected_pairing_cache_size now r =
    let live = expire r.rejected_pairings now in
    (record r { rejected_pairings = live }, length live)
