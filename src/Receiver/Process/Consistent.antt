-- ===== src/Receiver/Process/Consistent.antt =====
-- `_process_data` keeps the invariant of `UdpReceiver` and counts every datagram once.
use niw_pspto_pc.Base.{
  ℕ, ◌+◌, ◌≡◌, refl, ap, Bool, true, false, List, some, equals, option_eq, Bool-cases, Option-cases,
  inl, inr, arith, if◌then◌else◌, not, ◌||◌, ◌&&◌,
}
use niw_pspto_pc.Base.Dict.{insert, has, lookup-insert}
use niw_pspto_pc.Protocol.{InputPacket, encode_pairing_ack, Encoded, encoded, raises}
use niw_pspto_pc.Receiver.Sequence.{observe}
use niw_pspto_pc.Receiver.Rate.{observe_rate}
use niw_pspto_pc.Receiver.State.{
  Receiver, ReceiverSnapshot, ClientState, TransportKind, Address, address_eq, Env, Clock,
  log_inactive, code_matched, ack_sent, send_ack,
}
use niw_pspto_pc.Receiver.Effects.{emit, emit_stage, pairing_ack_is_allowed}
use niw_pspto_pc.Receiver.Core.{
  Core, core-emit_if, core-publish, core-emit_stage, core-pairing_ack_is_allowed,
}
use niw_pspto_pc.Receiver.Handle.{
  Handled, ignored, handled, raised, track, admit, handle_packet, count_packet, is_unpaired,
  publish,
}
use niw_pspto_pc.Receiver.Invariant.{IsSound, IsConsistent}
use niw_pspto_pc.Receiver.Invariant.Packets.{core-IsConsistent}
use niw_pspto_pc.Receiver.Process.{
  authorized_token, is_recently_acked, deliver_ack, acknowledge, conclude,
}

-- A packet that is handled leaves a state for its sender.
abbrev pub Stored : Receiver × Handled → Address → Type 0
Stored (r, ignored) a = Unit
Stored (r, handled s) a = has a r.clients ≡ true
Stored (r, raised) a = Unit

abbrev published : Env → Clock → Receiver × Handled → Receiver × Handled
published env clock p = elim p.1 [
  | handled snapshot ↦ (publish env clock snapshot p.0, handled snapshot)
  | ignored ↦ (p.0, ignored)
  | raised ↦ (p.0, raised)
]

published-Stored :
    (env : Env) (clock : Clock) (a : Address) (p : Receiver × Handled)
    → has a p.0.clients ≡ true
    → Stored (published env clock p) a
published-Stored env clock a (r, ignored) h = tt
published-Stored env clock a (r, handled s) h =
    rw (ap (λ (c : Core). c.clients) (core-publish env clock s r)) h
published-Stored env clock a (r, raised) h = tt

track-Stored :
    (clock : Clock) (packet : InputPacket) (a : Address) (t : TransportKind) (now : ℕ)
    (state : ClientState) (r : Receiver)
    → has a (track clock packet a t now state r).0.clients ≡ true
unfolding track
track-Stored clock packet a t now state r =
    elim (Option-cases (observe state.sequences packet.sequence)) [
      | inl bad ↦
          rw (bad, track)
            (ground (arith, lookup-insert a a state r.clients, address_eq.beq_iff a a))
      | inr ((tracker, result), good) ↦
          let (rate, per_second) = observe_rate state.rate now in
          let is_active = equals r.active_client (some a) in
          let counted = count_packet state tracker result rate now is_active in
          let stored : Receiver = record r { clients = insert a counted r.clients } in
          let same =
            core-emit_if (not is_active && not state.inactive_warning_logged) (log_inactive a)
              stored in
          rw (good, track)
            (ground (
              arith,
              ap (λ (c : Core). c.clients) same,
              lookup-insert a a counted r.clients,
              address_eq.beq_iff a a,
            ))
    ]

pub handle_packet-Stored :
    (env : Env) (clock : Clock) (packet : InputPacket) (a : Address) (t : TransportKind) (now : ℕ)
    (r : Receiver)
    → Stored (handle_packet env clock packet a t now r) a
unfolding handle_packet
handle_packet-Stored env clock packet a t now r = elim (Bool-cases (is_unpaired r packet t)) [
  | inl out ↦ rw (out, handle_packet) tt
  | inr paired ↦
      rw (paired, handle_packet)
        (published-Stored env clock a (admit clock packet a t now r)
          (track-Stored clock packet a t now _ _))
]

-- An ACK is noted for a client that has a state.
ack_noted-IsConsistent :
    (r : Receiver) (a : Address) (now : ℕ)
    → has a r.clients ≡ true
    → IsConsistent r
    → IsConsistent (record r { last_ack_sent = insert a now r.last_ack_sent })
ack_noted-IsConsistent r a now known h = record {
  sound = λ b.
      let s = h.sound b in
      record {
        active_known = s.active_known;
        active_free = s.active_free;
        blocked_known = s.blocked_known;
        acked_known = λ p. ground (
          arith,
          known,
          lookup-insert a b now r.last_ack_sent,
          address_eq.beq_iff a b,
          s.acked_known,
        );
        fresh_seen = s.fresh_seen;
      };
  distinct = h.distinct;
  token = h.token;
  retention = h.retention;
}

deliver_ack-IsConsistent :
    (env : Env) (clock : Clock) (s : ReceiverSnapshot) (a : Address) (t : TransportKind)
    (ack : List ℕ) (r : Receiver)
    → has a r.clients ≡ true
    → IsConsistent r
    → IsConsistent (deliver_ack env clock s a t ack r)
unfolding deliver_ack
deliver_ack-IsConsistent env clock s a t ack r known h =
    let sent = emit (send_ack t a ack) r in
    let noted : Receiver = record sent {
      last_ack_sent = insert a clock.acked_at sent.last_ack_sent;
    } in
    elim (Bool-cases (env.ack_delivered ack)) [
      | inl yes_sent ↦ rw yes_sent (
          core-IsConsistent noted _ (core-emit_stage env ack_sent a t noted) (
            core-IsConsistent (record r { last_ack_sent = insert a clock.acked_at r.last_ack_sent })
              noted refl (ack_noted-IsConsistent r a clock.acked_at known h)))
      | inr lost ↦ rw lost (core-IsConsistent r sent refl h)
    ]

acknowledge-IsConsistent :
    (env : Env) (clock : Clock) (s : ReceiverSnapshot) (a : Address) (t : TransportKind) (token : ℕ)
    (r : Receiver)
    → has a r.clients ≡ true
    → IsConsistent r
    → IsConsistent (acknowledge env clock s a t token r).0
unfolding acknowledge
acknowledge-IsConsistent env clock s a t token r known h =
    let asked = (pairing_ack_is_allowed env r).0 in
    let same = core-pairing_ack_is_allowed env r in
    let consistent = core-IsConsistent r asked same h in
    let known' : has a asked.clients ≡ true = rw (ap (λ (c : Core). c.clients) same) known in
    elim (Bool-cases
      (not (pairing_ack_is_allowed env r).1 || is_recently_acked asked a clock.acked_at)) [
        | inl quiet ↦ rw (quiet, acknowledge) consistent
        | inr due ↦
            rw (due, acknowledge) (encoded_outcome (encode_pairing_ack token) known' consistent)
      ]
  where
    encoded_outcome :
        (e : Encoded)
        → has a (pairing_ack_is_allowed env r).0.clients ≡ true
        → IsConsistent (pairing_ack_is_allowed env r).0
        → IsConsistent
            (elim e as (λ _. Receiver × Handled) [
              | raises _ ↦ ((pairing_ack_is_allowed env r).0, raised)
              | encoded ack ↦
                  (deliver_ack env clock s a t ack (pairing_ack_is_allowed env r).0, handled s)
            ]).0
    encoded_outcome (raises _) k c = c
    encoded_outcome (encoded ack) k c = deliver_ack-IsConsistent env clock s a t ack _ k c

pub conclude-IsConsistent :
    (env : Env) (clock : Clock) (packet : InputPacket) (s : ReceiverSnapshot) (a : Address)
    (t : TransportKind) (r : Receiver)
    → has a r.clients ≡ true
    → IsConsistent r
    → IsConsistent (conclude env clock packet s a t r).0
unfolding conclude
conclude-IsConsistent env clock packet s a t r known h =
    let counted : Receiver = record r { valid_packets = r.valid_packets + 1 } in
    let consistent : IsConsistent counted = record {
      sound = λ b. counted_sound (h.sound b);
      distinct = h.distinct;
      token = h.token;
      retention = h.retention;
    } in
    let matched = emit_stage env code_matched a t counted in
    let same = core-emit_stage env code_matched a t counted in
    let known' : has a matched.clients ≡ true = rw (ap (λ (c : Core). c.clients) same) known in
    elim (Option-cases (authorized_token counted packet t)) [
      | inl bare ↦ rw (bare, conclude) consistent
      | inr (token, found) ↦
          rw (found, conclude)
            (if_outcome s.is_active_client _ _
              (acknowledge-IsConsistent env clock s a t token matched known'
                (core-IsConsistent counted matched same consistent))
              (core-IsConsistent counted matched same consistent))
    ]
  where
    counted_sound :
        {b : Address} → IsSound r b → IsSound (record r { valid_packets = r.valid_packets + 1 }) b
    counted_sound x = record {
      active_known = x.active_known;
      active_free = x.active_free;
      blocked_known = x.blocked_known;
      acked_known = x.acked_known;
      fresh_seen = x.fresh_seen;
    }

    if_outcome :
        (b : Bool) (x y : Receiver × Handled)
        → IsConsistent x.0
        → IsConsistent y.0
        → IsConsistent (if b then x else y).0
    if_outcome true x y p q = p
    if_outcome false x y p q = q
