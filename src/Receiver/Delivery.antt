-- ===== src/Receiver/Delivery.antt =====
-- What `_process_data` of pc-server/pc_server/receiver.py hands to `on_packet`.
use niw_pspto_pc.Base.{
  ℕ, ◌+◌, All, ◌≡◌, refl, sym, ap, ◌∙◌, false, not, ◌&&◌, ◌||◌, List, ◌∷◌, option_eq, string_eq,
  nat_eq, Bool-cases, Option-cases, inl, inr, arith, if◌then◌else◌,
}
use niw_pspto_pc.Protocol.{InputPacket, encode_pairing_ack, Encoded, encoded, raises}
use niw_pspto_pc.Receiver.State.{
  Receiver, ReceiverSnapshot, code_matched, ack_sent, valid_packet, Address, address_eq,
  TransportKind, Env, Clock,
}
use niw_pspto_pc.Receiver.Effects.{emit_stage, pairing_ack_is_allowed}
use niw_pspto_pc.Receiver.Handle.{Handled, ignored, handled, raised, handle_packet, is_unpaired}
use niw_pspto_pc.Receiver.Process.{
  authorized_token, is_recently_acked, deliver_ack, acknowledge, conclude, process_packet, arrive,
}
use niw_pspto_pc.Receiver.Process.Data.{core-arrive, settled}
use niw_pspto_pc.Receiver.Calls.{
  called, is_given, called-callback_failed, called-emit_stage, called-arrive, called-handle_packet,
}
use niw_pspto_pc.Protocol.{decode_packet, ok}
use niw_pspto_pc.Struct.{IsByte}
use niw_pspto_pc.Receiver.Tally.{Tally, handle_packet_tallies}
use niw_pspto_pc.Protocol.Bounds.{IsInRange, decode_packet-IsInRange}
use niw_pspto_pc.Receiver.Accounts.{HasRange, conclude_counts}
use niw_pspto_pc.Receiver.Process.{is_not_allowed, process_data}
use niw_pspto_pc.Receiver.Core.{Core, core, core-emit_stage}

called-pairing_ack_is_allowed :
    (env : Env) (r : Receiver) → called (pairing_ack_is_allowed env r).0 ≡ called r
unfolding pairing_ack_is_allowed
called-pairing_ack_is_allowed env r = ground (arith, called-callback_failed "pairing_ack_allowed" r)

called-deliver_ack :
    (env : Env) (clock : Clock) (s : ReceiverSnapshot) (a : Address) (t : TransportKind)
    (ack : List ℕ) (r : Receiver)
    → called (deliver_ack env clock s a t ack r) ≡ called r
unfolding deliver_ack
called-deliver_ack env clock s a t ack r = elim (Bool-cases (env.ack_delivered ack)) [
  | inl sent ↦ rw (sent, deliver_ack) (called-emit_stage env ack_sent a t _)
  | inr lost ↦ rw (lost, deliver_ack) refl
]

called-acknowledge :
    (env : Env) (clock : Clock) (s : ReceiverSnapshot) (a : Address) (t : TransportKind) (token : ℕ)
    (r : Receiver)
    → called (acknowledge env clock s a t token r).0 ≡ called r
unfolding acknowledge
called-acknowledge env clock s a t token r =
    let asked = (pairing_ack_is_allowed env r).0 in
    let same = called-pairing_ack_is_allowed env r in
    elim (Bool-cases
      (not (pairing_ack_is_allowed env r).1 || is_recently_acked asked a clock.acked_at)) [
        | inl quiet ↦ rw (quiet, acknowledge) same
        | inr due ↦ rw (due, acknowledge) (by_ack (encode_pairing_ack token) asked ∙ same)
      ]
  where
    by_ack :
        (e : Encoded) (asked : Receiver)
        → called
            (elim e as (λ _. Receiver × Handled) [
              | raises _ ↦ (asked, raised)
              | encoded ack ↦ (deliver_ack env clock s a t ack asked, handled s)
            ]).0
          ≡ called asked
    by_ack (raises _) asked = refl
    by_ack (encoded ack) asked = called-deliver_ack env clock s a t ack asked

pub called-conclude :
    (env : Env) (clock : Clock) (packet : InputPacket) (s : ReceiverSnapshot) (a : Address)
    (t : TransportKind) (r : Receiver)
    → called (conclude env clock packet s a t r).0 ≡ called r
unfolding conclude
called-conclude env clock packet s a t r =
    let counted : Receiver = record r { valid_packets = r.valid_packets + 1 } in
    let matched = emit_stage env code_matched a t counted in
    let same = called-emit_stage env code_matched a t counted in
    elim (Option-cases (authorized_token counted packet t)) [
      | inl bare ↦ rw (bare, conclude) refl
      | inr (token, found) ↦
          rw (found, conclude)
            (ground (arith, same, called-acknowledge env clock s a t token matched))
    ]

pub same_unpaired :
    (r s : Receiver) (packet : InputPacket) (t : TransportKind)
    → core s ≡ core r
    → is_unpaired r packet t ≡ false
    → is_unpaired s packet t ≡ false
unfolding is_unpaired
same_unpaired r s packet t same paired =
    let config = ap (λ (c : Core). c.config) same in
    let token = ap (λ (c : Core). c.pairing_token) same in rw (config, token) paired

pub same_listed :
    (r s : Receiver) (a : Address) (t : TransportKind)
    → core s ≡ core r
    → is_not_allowed r a t ≡ false
    → is_not_allowed s a t ≡ false
unfolding is_not_allowed
same_listed r s a t same listed = let config = ap (λ (c : Core). c.config) same in rw config listed

-- What follows `_handle_packet` keeps a handled packet's snapshot, and calls the controller no more.
called-settled :
    (env : Env) (clock : Clock) (packet : InputPacket) (a : Address) (t : TransportKind)
    (p : Receiver × Handled) (s : ReceiverSnapshot)
    → IsInRange packet
    → HasRange p.0.pairing_token
    → (settled env clock a t packet p).1 ≡ handled s
    → (p.1 ≡ handled s) × (called (settled env clock a t packet p).0 ≡ called p.0)
unfolding settled
called-settled env clock packet a t (r, ignored) s range token outcome = cc
called-settled env clock packet a t (r, raised) s range token outcome = cc
called-settled env clock packet a t (r, handled u) s range token outcome =
    let (kept, same) = conclude_counts env clock packet u a t r range token in
    (sym same ∙ outcome, called-conclude env clock packet u a t r)

called-process_packet :
    (env : Env) (clock : Clock) (packet : InputPacket) (a : Address) (t : TransportKind)
    (r : Receiver) (s : ReceiverSnapshot)
    → IsInRange packet
    → HasRange r.pairing_token
    → is_unpaired r packet t ≡ false
    → (process_packet env clock packet a t r).1 ≡ handled s
    → called (process_packet env clock packet a t r).0
      ≡ (if is_given env.on_packet && s.is_state_update then s ∷ called r else called r)
unfolding process_packet settled
called-process_packet env clock packet a t r s range token paired outcome =
    let valid = emit_stage env valid_packet a t r in
    let same = core-emit_stage env valid_packet a t r in
    let (kept, fine) =
      handle_packet_tallies env clock packet a t clock.received_at valid range.sequence in
    let code = ap (λ (x : Tally). x.pairing_token) kept ∙ ap (λ (c : Core). c.pairing_token) same in
    let (handles, quiet) =
      called-settled env clock packet a t
        (handle_packet env clock packet a t clock.received_at valid) s range
        (λ n e. token n (sym code ∙ e)) outcome in
    quiet
    ∙ called-handle_packet env clock packet a t clock.received_at valid s
        (same_unpaired r valid packet t same paired) handles
    ∙ ap
        (λ (calls : List ReceiverSnapshot).
          if is_given env.on_packet && s.is_state_update then s ∷ calls else calls)
        (called-emit_stage env valid_packet a t r)

-- Where a datagram decodes, its sender is allowed and has the code where one is needed: if it is handled,
-- the controller is called with its snapshot if that is a state update, and otherwise not at all.
pub called-process_data :
    (env : Env) (clock : Clock) (bytes : List ℕ) (packet : InputPacket) (a : Address)
    (t : TransportKind) (r : Receiver) (s : ReceiverSnapshot)
    → All IsByte bytes
    → decode_packet bytes ≡ ok packet
    → HasRange r.pairing_token
    → is_not_allowed r a t ≡ false
    → is_unpaired r packet t ≡ false
    → (process_data env clock bytes a t r).1 ≡ handled s
    → called (process_data env clock bytes a t r).0
      ≡ (if is_given env.on_packet && s.is_state_update then s ∷ called r else called r)
unfolding process_data is_unpaired
called-process_data env clock bytes packet a t r s range decoded token listed paired outcome =
    let arrived = arrive env clock a t r in
    let counted : Receiver = record r { datagrams_received = r.datagrams_received + 1 } in
    let same = core-arrive env clock a t r in
    let code = ap (λ (c : Core). c.pairing_token) same in
    let shape : process_data env clock bytes a t r ≡ process_packet env clock packet a t arrived =
      rw (decoded, process_data, same_listed counted arrived a t same listed) refl in
    ap (λ (p : Receiver × Handled). called p.0) shape
    ∙ called-process_packet env clock packet a t arrived s
        (decode_packet-IsInRange bytes packet range decoded) (λ n e. token n (sym code ∙ e))
        (same_unpaired counted arrived packet t same paired)
        (sym (ap (λ (p : Receiver × Handled). p.1) shape) ∙ outcome)
    ∙ ap
        (λ (calls : List ReceiverSnapshot).
          if is_given env.on_packet && s.is_state_update then s ∷ calls else calls)
        (called-arrive env clock a t r)
