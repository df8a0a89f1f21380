-- ===== src/Receiver/Handle.antt =====
-- `_handle_packet` of pc-server/pc_server/receiver.py, cut at its comments.
use niw_pspto_pc.Base.{
  ℕ, ◌+◌, Bool, true, false, not, ◌&&◌, ◌||◌, Option, none, some, ltb, leb, equals, option_eq,
  nat_eq, if◌then◌else◌,
}
use niw_pspto_pc.Base.Dict.{lookup, insert, member}
use niw_pspto_pc.Protocol.{InputPacket}
use niw_pspto_pc.Receiver.Sequence.{
  SequenceEvent, first, in_order, gap, duplicate, out_of_order, is_fresh, SequenceResult,
  SequenceTracker, new_tracker, observe,
}
use niw_pspto_pc.Receiver.Rate.{RateTracker, new_rate, observe_rate, estimate_latency}
use niw_pspto_pc.Receiver.Cache.{remember}
use niw_pspto_pc.Receiver.State.{
  Receiver, ClientState, new_client, ReceiverSnapshot, TransportKind, wifi, usb, same_transport,
  Address, address_eq, pairing_key_eq, gap_key, sequence_key, log_selected, log_switched,
  log_inactive, log_waiting_for_pairing, display_render, call_diagnostic, call_packet,
  transport_switch_grace, Env, Clock,
}
use niw_pspto_pc.Receiver.Effects.{emit, emit_if, break_line, log_rejected, invoke_callback}
use niw_pspto_pc.Receiver.Clients.{maintain_clients}

-- `raised` is the `ValueError` of `observe`, which no caller catches.
pub data Handled : Type 0 where
  ignored : Handled
  handled : ReceiverSnapshot → Handled
  raised : Handled

abbrev pub is_wifi : TransportKind → Bool
is_wifi wifi = true
is_wifi usb = false

-- The guard on the Wi-Fi code.
unfoldable pub is_unpaired : Receiver → InputPacket → TransportKind → Bool
is_unpaired r packet transport =
    r.config.require_pairing && is_wifi transport && elim r.pairing_token [
      | none ↦ true
      | some token ↦ not (equals packet.session_token (some token))
    ]

-- The branch of that guard.
unfoldable pub reject_unpaired : Receiver → InputPacket → Address → ℕ → Receiver
reject_unpaired r packet address now =
    let (cache, should_log) = remember r.rejected_pairings (address.0, packet.session_token) now in
    emit_if should_log (log_waiting_for_pairing address)
      (record r { pairing_rejections = r.pairing_rejections + 1; rejected_pairings = cache })

-- A new session: nothing is kept of the sequence and the rate.
abbrev pub restart_session : ClientState → ClientState
restart_session state = record state {
  sequences = new_tracker;
  rate = new_rate;
  inactive_warning_logged = false;
}

abbrev pub is_other_session : ClientState → InputPacket → Bool
is_other_session state packet = elim state.session_token [
  | none ↦ false
  | some token ↦ not (equals packet.session_token (some token))
]

-- The restarts for another token and after a full safety timeout, and the new fields.
unfoldable pub renew : ℕ → InputPacket → TransportKind → ℕ → ClientState → ClientState
renew timeout packet transport now state =
    let same = if is_other_session state packet then restart_session state else state in
    let live =
      if ltb 0 same.last_seen && leb (same.last_seen + timeout) now
      then restart_session same
      else same in
    record live { session_token = packet.session_token; transport = transport; last_seen = now }

-- What the choice of the active client does to the receiver and to the client.
pub data Choice : Type 0 where
  unchanged : Choice
  selected : Choice
  switched_from : TransportKind → Choice

-- Whether the active client may hand over to a client of another transport.
unfoldable pub may_switch : ClientState → InputPacket → TransportKind → ℕ → Bool
may_switch active packet transport now =
    not (same_transport active.transport transport)
    && elim active.session_token [
      | none ↦ false
      | some token ↦ equals (some token) packet.session_token
    ]
    && leb (active.last_fresh_state + transport_switch_grace) now

-- The `if`/`elif` on `_active_client`; `r` has been maintained, and has the client's state.
unfoldable pub choose_active : Receiver → InputPacket → Address → TransportKind → ℕ → Choice
unfolding may_switch
choose_active r packet address transport now =
    if member address r.blocked_clients then unchanged else elim r.active_client [
      | none ↦ selected
      | some a ↦ if equals a address then unchanged else elim (lookup a r.clients) [
        | none ↦ unchanged
        | some active ↦
            if may_switch active packet transport now
            then switched_from active.transport
            else unchanged
      ]
    ]

unfoldable pub apply_choice : Choice → Address → TransportKind → Receiver → Receiver
apply_choice unchanged address transport r = r
apply_choice selected address transport r =
    emit (log_selected address) (record r { active_client = some address })
apply_choice (switched_from old) address transport r =
    emit (log_switched old transport) (record r { active_client = some address })

-- The client's part of the choice, and the restart at a handoff.
unfoldable pub hand_over : Choice → ClientState → ClientState
hand_over unchanged state = state
hand_over selected state = record state { inactive_warning_logged = false }
hand_over (switched_from old) state = record state {
  inactive_warning_logged = false;
  sequences = new_tracker;
  rate = new_rate;
  last_fresh_state = 0;
}

-- The client's state with the packet counted.
unfoldable pub count_packet :
    ClientState → SequenceTracker → SequenceResult → RateTracker → ℕ → Bool → ClientState
count_packet state tracker result rate now is_active = record state {
  sequences = tracker;
  rate = rate;
  last_fresh_state = if is_fresh result.event then now else state.last_fresh_state;
  inactive_warning_logged = state.inactive_warning_logged || not is_active;
}

-- What is logged and shown of the packet's place in the sequence.
unfoldable pub report_sequence : SequenceEvent → Address → ℕ → Receiver → Receiver
unfolding log_rejected
report_sequence first address now r = r
report_sequence in_order address now r = r
report_sequence gap address now r = log_rejected (gap_key address) now (break_line r)
report_sequence duplicate address now r =
    log_rejected (sequence_key duplicate address) now (break_line r)
report_sequence out_of_order address now r =
    log_rejected (sequence_key out_of_order address) now (break_line r)

-- From the end of the locked block on: the reports and the callbacks.
unfoldable pub publish : Env → Clock → ReceiverSnapshot → Receiver → Receiver
unfolding report_sequence invoke_callback
publish env clock s r =
    let reported = report_sequence s.sequence_result.event s.address clock.logged_at r in
    let shown =
      emit_if (reported.config.has_display && s.is_active_client) (display_render s) reported in
    let diagnosed = invoke_callback "on_diagnostic" env.on_diagnostic s (call_diagnostic s) shown in
    if s.is_state_update
    then invoke_callback "on_packet" env.on_packet s (call_packet s) diagnosed
    else diagnosed

abbrev pub or_new_client : Option ClientState → ClientState
or_new_client none = new_client
or_new_client (some state) = state

-- The locked block behind `setdefault`, on the receiver with the choice of the active client made.
unfoldable pub track :
    Clock → InputPacket → Address → TransportKind → ℕ → ClientState → Receiver → Receiver × Handled
unfolding count_packet
track clock packet address transport now state r = elim (observe state.sequences packet.sequence) [
  | none ↦ (record r { clients = insert address state r.clients }, raised)
  | some (tracker, result) ↦
      let (rate, per_second) = observe_rate state.rate now in
      let is_active = equals r.active_client (some address) in
      let counted = count_packet state tracker result rate now is_active in
      let snapshot : ReceiverSnapshot = record {
        packet = packet;
        address = address;
        packets_per_second = per_second;
        latency = estimate_latency packet.timestamp_us clock.epoch_us;
        sequence_result = result;
        received = tracker.received;
        lost = tracker.lost;
        duplicates = tracker.duplicates;
        out_of_order = tracker.out_of_order;
        is_active_client = is_active;
        is_state_update = is_active && is_fresh result.event;
        transport = transport;
      } in
      (
        emit_if (not is_active && not state.inactive_warning_logged) (log_inactive address)
            (record r { clients = insert address counted r.clients }),
        handled snapshot,
      )
]

-- The paired part of the locked block.
unfoldable pub admit :
    Clock → InputPacket → Address → TransportKind → ℕ → Receiver → Receiver × Handled
unfolding renew choose_active apply_choice hand_over track
admit clock packet address transport now r =
    let kept = maintain_clients r now in
    let state =
      renew kept.config.active_client_timeout packet transport now
        (or_new_client (lookup address kept.clients)) in
    let present = record kept { clients = insert address state kept.clients } in
    let choice = choose_active present packet address transport now in
    track clock packet address transport now (hand_over choice state)
      (apply_choice choice address transport present)

-- `_handle_packet`
unfoldable pub handle_packet :
    Env → Clock → InputPacket → Address → TransportKind → ℕ → Receiver → Receiver × Handled
unfolding is_unpaired reject_unpaired admit publish
handle_packet env clock packet address transport now r =
    if is_unpaired r packet transport
    then (reject_unpaired r packet address now, ignored)
    else (let (tracked, outcome) = admit clock packet address transport now r in
        elim outcome [
          | handled snapshot ↦ (publish env clock snapshot tracked, handled snapshot)
          | ignored ↦ (tracked, ignored)
          | raised ↦ (tracked, raised)
        ])
