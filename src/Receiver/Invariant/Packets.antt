-- ===== src/Receiver/Invariant/Packets.antt =====
-- A packet keeps the invariant of `UdpReceiver`, on every branch of `_handle_packet` and
-- `_process_data`.
use niw_pspto_pc.Base.{
  ℕ, ◌≤◌, ◌≡◌, ap, Bool, true, false, Option, none, some, equals, Bool-cases, Option-cases, inl,
  inr, arith, if◌then◌else◌, not, ◌&&◌, option_eq,
}
use niw_pspto_pc.Base.Dict.{lookup, insert, has, lookup-insert, insert-IsDistinct}
use niw_pspto_pc.Protocol.{InputPacket}
use niw_pspto_pc.Receiver.Sequence.{observe, SequenceTracker, SequenceResult}
use niw_pspto_pc.Receiver.Rate.{RateTracker, observe_rate}
use niw_pspto_pc.Receiver.State.{
  Receiver, ClientState, TransportKind, Address, address_eq, Env, Clock, log_inactive,
}
use niw_pspto_pc.Receiver.Core.{core, Core, core-emit_if, core-publish, core-reject_unpaired}
use niw_pspto_pc.Receiver.Clients.{release_timed_out, drop_expired, maintain_clients}
use niw_pspto_pc.Receiver.Clients.Laws.{lookup-drop_clients}
use niw_pspto_pc.Receiver.Handle.{
  Handled, ignored, handled, raised, is_unpaired, renew, Choice, unchanged, selected, switched_from,
  choose_active, apply_choice, hand_over, count_packet, or_new_client, track, admit, handle_packet,
  publish,
}
use niw_pspto_pc.Receiver.Invariant.{IsConsistent, FreshSeen, maintain_clients-IsConsistent}

-- The invariant reads the core alone.
pub core-IsConsistent : (r s : Receiver) → core s ≡ core r → IsConsistent r → IsConsistent s
core-IsConsistent r s e h =
    let config = ap (λ (c : Core). c.config) e in
    let token = ap (λ (c : Core). c.pairing_token) e in
    let clients = ap (λ (c : Core). c.clients) e in
    let active = ap (λ (c : Core). c.active_client) e in
    let blocked = ap (λ (c : Core). c.blocked_clients) e in
    let acked = ap (λ (c : Core). c.last_ack_sent) e in
    record {
      sound = λ a.
          let x = h.sound a in
          record {
            active_known = rw (active, clients) x.active_known;
            active_free = rw (active, blocked) x.active_free;
            blocked_known = rw (clients, blocked) x.blocked_known;
            acked_known = rw (clients, acked) x.acked_known;
            fresh_seen = rw clients x.fresh_seen;
          };
      distinct = rw clients h.distinct;
      token = rw token h.token;
      retention = rw config h.retention;
    }

-- Writing a client's state that is no fresher than seen.
insert-IsConsistent :
    (r : Receiver) (a : Address) (state : ClientState)
    → state.last_fresh_state ≤ state.last_seen
    → IsConsistent r
    → IsConsistent (record r { clients = insert a state r.clients })
insert-IsConsistent r a state le h = record {
  sound = λ b.
      let s = h.sound b in
      let stored = lookup-insert a b state r.clients in
      record {
        active_known = λ p. ground (arith, stored, s.active_known);
        active_free = s.active_free;
        blocked_known = λ p. ground (arith, stored, s.blocked_known);
        acked_known = λ p. ground (arith, stored, s.acked_known);
        fresh_seen = ground (arith, stored, s.fresh_seen);
      };
  distinct = insert-IsDistinct a state r.clients h.distinct;
  token = h.token;
  retention = h.retention;
}

-- The client that is chosen has a state and is not blocked.
choice-IsConsistent :
    (r : Receiver) (packet : InputPacket) (a : Address) (t : TransportKind) (now : ℕ)
    → has a r.clients ≡ true
    → IsConsistent r
    → IsConsistent (apply_choice (choose_active r packet a t now) a t r)
unfolding choose_active apply_choice
choice-IsConsistent r packet a t now known h = record {
  sound = λ b.
      let s = h.sound b in
      record {
        active_known = λ p. ground (arith, known, s.active_known);
        active_free = λ p. ground (arith, known, s.active_free);
        blocked_known = ground (arith, s.blocked_known);
        acked_known = ground (arith, s.acked_known);
        fresh_seen = ground (arith, s.fresh_seen);
      };
  distinct = ground (arith, h.distinct);
  token = ground (arith, h.token);
  retention = ground (arith, h.retention);
}

renew_times :
    (timeout : ℕ) (packet : InputPacket) (t : TransportKind) (now : ℕ) (state : ClientState)
    → ((renew timeout packet t now state).last_seen ≡ now)
      × ((renew timeout packet t now state).last_fresh_state ≡ state.last_fresh_state)
unfolding renew
renew_times timeout packet t now state = ground arith

hand_over_times :
    (choice : Choice) (state : ClientState)
    → ((hand_over choice state).last_seen ≡ state.last_seen)
      × ((hand_over choice state).last_fresh_state ≤ state.last_fresh_state)
unfolding hand_over
hand_over_times unchanged state = omega arith
hand_over_times selected state = omega arith
hand_over_times (switched_from old) state = omega arith

count_packet_times :
    (state : ClientState) (tracker : SequenceTracker) (result : SequenceResult) (rate : RateTracker)
    (now : ℕ) (is_active : Bool)
    → state.last_seen ≡ now
    → state.last_fresh_state ≤ now
    → (count_packet state tracker result rate now is_active).last_fresh_state
      ≤ (count_packet state tracker result rate now is_active).last_seen
unfolding count_packet
count_packet_times state tracker result rate now is_active e le = ground arith

track-IsConsistent :
    (clock : Clock) (packet : InputPacket) (a : Address) (t : TransportKind) (now : ℕ)
    (state : ClientState) (r : Receiver)
    → state.last_seen ≡ now
    → state.last_fresh_state ≤ now
    → IsConsistent r
    → IsConsistent (track clock packet a t now state r).0
unfolding track
track-IsConsistent clock packet a t now state r e le h =
    elim (Option-cases (observe state.sequences packet.sequence)) [
      | inl bad ↦ rw (bad, track) (insert-IsConsistent r a state (omega arith) h)
      | inr ((tracker, result), good) ↦
          let (rate, per_second) = observe_rate state.rate now in
          let is_active = equals r.active_client (some a) in
          let counted = count_packet state tracker result rate now is_active in
          let stored : Receiver = record r { clients = insert a counted r.clients } in
          rw (good, track)
            (core-IsConsistent stored _
              (core-emit_if (not is_active && not state.inactive_warning_logged) (log_inactive a)
                stored)
              (insert-IsConsistent r a counted
                (count_packet_times state tracker result rate now is_active e le) h))
    ]

-- The client at the address, if there is one, was last seen by `now`.
abbrev pub SeenBy : Option ClientState → ℕ → Type 0
SeenBy none now = Unit
SeenBy (some state) now = state.last_seen ≤ now

clients-release_timed_out : (r : Receiver) (now : ℕ) → (release_timed_out r now).clients ≡ r.clients
unfolding release_timed_out
clients-release_timed_out r now = ground arith

SeenBy-if :
    (b : Bool) (o : Option ClientState) (now : ℕ)
    → SeenBy o now
    → SeenBy (if b then none else o) now
SeenBy-if true o now h = tt
SeenBy-if false o now h = h

-- The maintenance adds no client.
lookup-maintain_clients :
    (r : Receiver) (now : ℕ) (a : Address)
    → SeenBy (lookup a r.clients) now
    → SeenBy (lookup a (maintain_clients r now).clients) now
unfolding maintain_clients drop_expired
lookup-maintain_clients r now a h =
    rw (lookup-drop_clients, clients-release_timed_out) (SeenBy-if _ (lookup a r.clients) now h)

fresh_by :
    (o : Option ClientState) (now : ℕ)
    → FreshSeen o
    → SeenBy o now
    → (or_new_client o).last_fresh_state ≤ now
fresh_by none now f s = omega arith
fresh_by (some state) now f s = omega arith

admit-IsConsistent :
    (clock : Clock) (packet : InputPacket) (a : Address) (t : TransportKind) (now : ℕ)
    (r : Receiver)
    → SeenBy (lookup a r.clients) now
    → IsConsistent r
    → IsConsistent (admit clock packet a t now r).0
unfolding admit
admit-IsConsistent clock packet a t now r seen h =
    let kept = maintain_clients r now in
    let consistent = maintain_clients-IsConsistent r now h in
    let old = or_new_client (lookup a kept.clients) in
    let state = renew kept.config.active_client_timeout packet t now old in
    let times = renew_times kept.config.active_client_timeout packet t now old in
    let fresh =
      fresh_by (lookup a kept.clients) now (consistent.sound a).fresh_seen
        (lookup-maintain_clients r now a seen) in
    let present : Receiver = record kept { clients = insert a state kept.clients } in
    let stored =
      insert-IsConsistent kept a state (omega (arith, times.0, times.1, fresh)) consistent in
    let choice = choose_active present packet a t now in
    let handed = hand_over_times choice state in
    track-IsConsistent clock packet a t now (hand_over choice state)
      (apply_choice choice a t present) (omega (arith, times.0, handed.0))
      (omega (arith, times.1, handed.1, fresh))
      (choice-IsConsistent present packet a t now
        (ground (arith, lookup-insert a a state kept.clients, address_eq.beq_iff a a)) stored)

publish_outcome :
    (env : Env) (clock : Clock) (p : Receiver × Handled)
    → IsConsistent p.0
    → IsConsistent
        (elim p.1 as (λ _. Receiver × Handled) [
          | handled snapshot ↦ (publish env clock snapshot p.0, handled snapshot)
          | ignored ↦ (p.0, ignored)
          | raised ↦ (p.0, raised)
        ]).0
publish_outcome env clock (r, ignored) h = h
publish_outcome env clock (r, handled s) h = core-IsConsistent r _ (core-publish env clock s r) h
publish_outcome env clock (r, raised) h = h

-- `_handle_packet` keeps the invariant, whichever way it ends.
pub handle_packet-IsConsistent :
    (env : Env) (clock : Clock) (packet : InputPacket) (a : Address) (t : TransportKind) (now : ℕ)
    (r : Receiver)
    → SeenBy (lookup a r.clients) now
    → IsConsistent r
    → IsConsistent (handle_packet env clock packet a t now r).0
unfolding handle_packet
handle_packet-IsConsistent env clock packet a t now r seen h =
    elim (Bool-cases (is_unpaired r packet t)) [
      | inl out ↦
          rw (out, handle_packet) (core-IsConsistent r _ (core-reject_unpaired r packet a now) h)
      | inr paired ↦
          rw (paired, handle_packet)
            (publish_outcome env clock (admit clock packet a t now r)
              (admit-IsConsistent clock packet a t now r seen h))
    ]
