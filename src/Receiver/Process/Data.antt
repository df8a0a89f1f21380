-- ===== src/Receiver/Process/Data.antt =====
-- `_process_data` as a whole: the invariant.
use niw_pspto_pc.Base.{ℕ, ◌+◌, ◌≡◌, ap, ◌∙◌, List, string_eq, Bool-cases, inl, inr, if◌then◌else◌}
use niw_pspto_pc.Base.Dict.{lookup}
use niw_pspto_pc.Protocol.{InputPacket, PacketError, Result, bad_struct, ok, err, decode_packet}
use niw_pspto_pc.Receiver.Cache.{remember}
use niw_pspto_pc.Receiver.State.{
  Receiver, TransportKind, Address, address_eq, Env, Clock, datagram_received, valid_packet,
  log_not_allowed, decode_key,
}
use niw_pspto_pc.Receiver.Effects.{emit_stage}
use niw_pspto_pc.Receiver.Core.{
  core, Core, core-emit_if, core-emit_stage, core-log_rejected, core-break_line,
}
use niw_pspto_pc.Receiver.Handle.{Handled, ignored, handled, raised, handle_packet}
use niw_pspto_pc.Receiver.Invariant.{IsConsistent}
use niw_pspto_pc.Receiver.Invariant.Packets.{core-IsConsistent, SeenBy, handle_packet-IsConsistent}
use niw_pspto_pc.Receiver.Process.{
  reject_datagram, is_not_allowed, reject_host, conclude, process_packet, arrive, process_data,
}
use niw_pspto_pc.Receiver.Process.Consistent.{Stored, handle_packet-Stored, conclude-IsConsistent}

-- The counters do not matter to the invariant.
recount-IsConsistent :
    (r : Receiver) (d v x : ℕ)
    → IsConsistent r
    → IsConsistent (record r { datagrams_received = d; valid_packets = v; rejected_datagrams = x })
recount-IsConsistent r d v x h = record {
  sound = λ a.
      let s = h.sound a in
      record {
        active_known = s.active_known;
        active_free = s.active_free;
        blocked_known = s.blocked_known;
        acked_known = s.acked_known;
        fresh_seen = s.fresh_seen;
      };
  distinct = h.distinct;
  token = h.token;
  retention = h.retention;
}

-- The counters after a datagram has come, and after it has been rejected.
pub core-arrive :
    (env : Env) (clock : Clock) (a : Address) (t : TransportKind) (r : Receiver)
    → core (arrive env clock a t r)
      ≡ core (record r { datagrams_received = r.datagrams_received + 1 })
unfolding arrive
core-arrive env clock a t r = core-emit_stage env datagram_received a t _

pub core-reject_datagram :
    (clock : Clock) (e : PacketError) (a : Address) (t : TransportKind) (r : Receiver)
    → core (reject_datagram clock e a t r)
      ≡ core (record r { rejected_datagrams = r.rejected_datagrams + 1 })
unfolding reject_datagram
core-reject_datagram clock e a t r =
    core-log_rejected (decode_key t a.0 e) clock.logged_at _ ∙ core-break_line _

pub core-reject_host :
    (clock : Clock) (a : Address) (r : Receiver)
    → core (reject_host clock a r)
      ≡ core (record r { rejected_datagrams = r.rejected_datagrams + 1 })
unfolding reject_host
core-reject_host clock a r =
    let (hosts, b) = remember r.rejected_hosts a.0 clock.received_at in
    core-emit_if b (log_not_allowed a) _

module _ (env : Env) (clock : Clock) (a : Address) (t : TransportKind) where
  -- What follows `_handle_packet`, by its outcome.
  unfoldable pub settled : InputPacket → Receiver × Handled → Receiver × Handled
  settled packet p = elim p.1 [
    | ignored ↦ (record p.0 { rejected_datagrams = p.0.rejected_datagrams + 1 }, ignored)
    | raised ↦ (p.0, raised)
    | handled s ↦ conclude env clock packet s a t p.0
  ]

  settled-IsConsistent :
      (packet : InputPacket) (p : Receiver × Handled)
      → Stored p a
      → IsConsistent p.0
      → IsConsistent (settled packet p).0
  unfolding settled
  settled-IsConsistent packet (r, ignored) s h =
      recount-IsConsistent r r.datagrams_received r.valid_packets (r.rejected_datagrams + 1) h
  settled-IsConsistent packet (r, handled s) known h =
      conclude-IsConsistent env clock packet s a t r known h
  settled-IsConsistent packet (r, raised) s h = h

  process_packet-IsConsistent :
      (packet : InputPacket) (r : Receiver)
      → SeenBy (lookup a r.clients) clock.received_at
      → IsConsistent r
      → IsConsistent (process_packet env clock packet a t r).0
  unfolding process_packet settled
  process_packet-IsConsistent packet r seen h =
      let valid = emit_stage env valid_packet a t r in
      let same = core-emit_stage env valid_packet a t r in
      let seen' : SeenBy (lookup a valid.clients) clock.received_at =
        rw (ap (λ (c : Core). c.clients) same) seen in
      settled-IsConsistent packet (handle_packet env clock packet a t clock.received_at valid)
        (handle_packet-Stored env clock packet a t clock.received_at valid)
        (handle_packet-IsConsistent env clock packet a t clock.received_at valid seen'
          (core-IsConsistent r valid same h))

  decided : Result InputPacket → Receiver → Receiver × Handled
  decided decoded r = elim decoded [
    | err bad_struct ↦ (r, raised)
    | err e ↦ (reject_datagram clock e a t r, ignored)
    | ok packet ↦
        if is_not_allowed r a t
        then (reject_host clock a r, ignored)
        else process_packet env clock packet a t r
  ]

  rejected-IsConsistent :
      (e : PacketError) (r : Receiver)
      → IsConsistent r
      → IsConsistent (reject_datagram clock e a t r)
  rejected-IsConsistent e r h =
      core-IsConsistent _ _ (core-reject_datagram clock e a t r)
        (recount-IsConsistent r r.datagrams_received r.valid_packets (r.rejected_datagrams + 1) h)

  decided-IsConsistent :
      (decoded : Result InputPacket) (r : Receiver)
      → SeenBy (lookup a r.clients) clock.received_at
      → IsConsistent r
      → IsConsistent (decided decoded r).0
  unfolding decided
  decided-IsConsistent (err bad_struct) r seen h = h
  decided-IsConsistent (err e) r seen h = rejected-IsConsistent e r h
  decided-IsConsistent (ok packet) r seen h = elim (Bool-cases (is_not_allowed r a t)) [
    | inl out ↦ rw out (
        core-IsConsistent _ _ (core-reject_host clock a r) (
          recount-IsConsistent r r.datagrams_received r.valid_packets (r.rejected_datagrams + 1) h))
    | inr fine ↦ rw fine (process_packet-IsConsistent packet r seen h)
  ]

-- Every datagram keeps the invariant, whatever its bytes, its transport, the callbacks and the
-- clocks, if its arrival is not earlier than the last one from its sender.
pub process_data-IsConsistent :
    (env : Env) (clock : Clock) (bytes : List ℕ) (a : Address) (t : TransportKind) (r : Receiver)
    → SeenBy (lookup a r.clients) clock.received_at
    → IsConsistent r
    → IsConsistent (process_data env clock bytes a t r).0
unfolding process_data decided
process_data-IsConsistent env clock bytes a t r seen h =
    let arrived = arrive env clock a t r in
    let same = core-arrive env clock a t r in
    let counted : Receiver = record r { datagrams_received = r.datagrams_received + 1 } in
    let seen' : SeenBy (lookup a arrived.clients) clock.received_at =
      rw (ap (λ (c : Core). c.clients) same) seen in
    decided-IsConsistent env clock a t (decode_packet bytes) arrived seen' (
      core-IsConsistent counted arrived same
        (recount-IsConsistent r (r.datagrams_received + 1) r.valid_packets r.rejected_datagrams h))
