-- ===== src/Receiver/Accounts.antt =====
-- `_process_data` of pc-server/pc_server/receiver.py never fails on bytes, and each datagram is
-- counted once.
use niw_pspto_pc.Base.{
  ℕ, ◌+◌, ◌≤◌, ◌≡◌, ◌≢◌, refl, ap, sym, ◌∙◌, Bool, true, false, not, ◌||◌, List, Option, some,
  option_eq, nat_eq, string_eq, All, Bool-cases, Option-cases, inl, inr, arith, if◌then◌else◌,
}
use niw_pspto_pc.Struct.{IsByte}
use niw_pspto_pc.Protocol.{
  InputPacket, Result, bad_struct, ok, err, decode_packet, pairing_token_max,
}
use niw_pspto_pc.Protocol.Bounds.{IsInRange, decode_packet-IsInRange}
use niw_pspto_pc.Protocol.Ack.{decode_ack-encode_ack}
use niw_pspto_pc.Protocol.Reject.{decode_packet-ne-bad_struct}
use niw_pspto_pc.Receiver.State.{
  Receiver, ReceiverSnapshot, TransportKind, wifi, usb, Address, address_eq, Env, Clock,
  code_matched, valid_packet, ack_sent,
}
use niw_pspto_pc.Receiver.Effects.{emit_stage, pairing_ack_is_allowed}
use niw_pspto_pc.Receiver.Core.{Core, core-emit_stage, core-pairing_ack_is_allowed}
use niw_pspto_pc.Receiver.Handle.{Handled, ignored, handled, raised, handle_packet}
use niw_pspto_pc.Receiver.Process.{
  authorized_token, is_recently_acked, deliver_ack, acknowledge, conclude, is_not_allowed,
  reject_host, reject_datagram, process_packet, arrive, process_data,
}
use niw_pspto_pc.Receiver.Process.Data.{
  core-arrive, core-reject_datagram, core-reject_host, settled,
}
use niw_pspto_pc.Receiver.Tally.{Tally, tally, tally_of, handle_packet_tallies}

-- A code that is absent or has 25 bits.
abbrev pub HasRange : Option ℕ → Type 0
HasRange o = (t : ℕ) → o ≡ some t → t ≤ pairing_token_max

authorized_token-HasRange :
    (r : Receiver) (packet : InputPacket) (t : TransportKind)
    → IsInRange packet
    → HasRange r.pairing_token
    → HasRange (authorized_token r packet t)
unfolding authorized_token
authorized_token-HasRange r packet usb p h = p.session_token
authorized_token-HasRange r packet wifi p h = λ token e. h token (from_code token e)
  where
    from_code :
        (token : ℕ) → authorized_token r packet wifi ≡ some token → r.pairing_token ≡ some token
    from_code token e = ground arith

-- The counters, and who is in control.
abbrev held : Receiver → Tally × Option Address
held r = (tally r, r.active_client)

abbrev held_of : Core → Tally × Option Address
held_of c = (tally_of c, c.active_client)

held-deliver_ack :
    (env : Env) (clock : Clock) (s : ReceiverSnapshot) (a : Address) (t : TransportKind)
    (ack : List ℕ) (r : Receiver)
    → held (deliver_ack env clock s a t ack r) ≡ held r
unfolding deliver_ack
held-deliver_ack env clock s a t ack r = elim (Bool-cases (env.ack_delivered ack)) [
  | inl sent ↦ rw (sent, deliver_ack) (ap held_of (core-emit_stage env ack_sent a t _))
  | inr lost ↦ rw (lost, deliver_ack) refl
]

acknowledge_tallies :
    (env : Env) (clock : Clock) (s : ReceiverSnapshot) (a : Address) (t : TransportKind) (token : ℕ)
    (r : Receiver)
    → token ≤ pairing_token_max
    → (held (acknowledge env clock s a t token r).0 ≡ held r)
      × ((acknowledge env clock s a t token r).1 ≡ handled s)
unfolding acknowledge
acknowledge_tallies env clock s a t token r small =
    let asked = (pairing_ack_is_allowed env r).0 in
    let same = ap held_of (core-pairing_ack_is_allowed env r) in
    let (ack, e, n, back) = decode_ack-encode_ack token small in
    elim (Bool-cases
      (not (pairing_ack_is_allowed env r).1 || is_recently_acked asked a clock.acked_at)) [
        | inl quiet ↦ rw (quiet, acknowledge) (same, refl)
        | inr due ↦
            rw (due, acknowledge, e) (held-deliver_ack env clock s a t ack asked ∙ same, refl)
      ]

-- One more valid packet, and no failure.
pub conclude_counts :
    (env : Env) (clock : Clock) (packet : InputPacket) (s : ReceiverSnapshot) (a : Address)
    (t : TransportKind) (r : Receiver)
    → IsInRange packet
    → HasRange r.pairing_token
    → (held (conclude env clock packet s a t r).0
        ≡ (record (tally r) { valid_packets = r.valid_packets + 1 }, r.active_client))
      × ((conclude env clock packet s a t r).1 ≡ handled s)
unfolding conclude
conclude_counts env clock packet s a t r p h =
    let counted : Receiver = record r { valid_packets = r.valid_packets + 1 } in
    let matched = emit_stage env code_matched a t counted in
    let same = ap held_of (core-emit_stage env code_matched a t counted) in
    elim (Option-cases (authorized_token counted packet t)) [
      | inl bare ↦ rw (bare, conclude) (refl, refl)
      | inr (token, found) ↦
          let small = authorized_token-HasRange counted packet t p h token found in
          let (kept, outcome) = acknowledge_tallies env clock s a t token matched small in
          rw (found, conclude)
            (if_both (record (tally r) { valid_packets = r.valid_packets + 1 }, r.active_client) s
              s.is_active_client (acknowledge env clock s a t token matched) (matched, handled s)
              (kept ∙ same, outcome) (same, refl))
    ]
  where
    if_both :
        (total : Tally × Option Address) (s : ReceiverSnapshot) (b : Bool)
        (x y : Receiver × Handled)
        → (held x.0 ≡ total) × (x.1 ≡ handled s)
        → (held y.0 ≡ total) × (y.1 ≡ handled s)
        → (held (if b then x else y).0 ≡ total) × ((if b then x else y).1 ≡ handled s)
    if_both total s true x y p q = p
    if_both total s false x y p q = q

-- One datagram more is valid or rejected, and nothing has failed.
abbrev Counts : Receiver → Receiver × Handled → Type 0
Counts r p =
    (p.1 ≢ raised)
    × (p.0.datagrams_received ≡ r.datagrams_received)
    × (p.0.valid_packets + p.0.rejected_datagrams ≡ r.valid_packets + r.rejected_datagrams + 1)

module _ (env : Env) (clock : Clock) (a : Address) (t : TransportKind) where
  settled-Counts :
      (packet : InputPacket) (r : Receiver) (p : Receiver × Handled)
      → IsInRange packet
      → HasRange r.pairing_token
      → tally p.0 ≡ tally r
      → p.1 ≢ raised
      → Counts r (settled env clock a t packet p)
  unfolding settled
  settled-Counts packet r (s, ignored) range h same fine = (λ e. cc, ground arith, ground arith)
  settled-Counts packet r (s, raised) range h same fine = absurd (fine refl)
  settled-Counts packet r (s, handled snapshot) range h same fine =
      let token = ap (λ (x : Tally). x.pairing_token) same in
      let (counted, outcome) =
        conclude_counts env clock packet snapshot a t s range (λ k e. h k (sym token ∙ e)) in
      let total = ap (λ (x : Tally × Option Address). x.0) counted in
      (λ e. cc, ground arith, ground arith)

  process_packet-Counts :
      (packet : InputPacket) (r : Receiver)
      → IsInRange packet
      → HasRange r.pairing_token
      → Counts r (process_packet env clock packet a t r)
  unfolding process_packet settled
  process_packet-Counts packet r range h =
      let valid = emit_stage env valid_packet a t r in
      let same = ap tally_of (core-emit_stage env valid_packet a t r) in
      let (kept, fine) =
        handle_packet_tallies env clock packet a t clock.received_at valid range.sequence in
      settled-Counts packet r (handle_packet env clock packet a t clock.received_at valid) range h
        (kept ∙ same) fine

  decided-Counts :
      (bytes : List ℕ) (r : Receiver)
      → All IsByte bytes
      → HasRange r.pairing_token
      → (decoded : Result InputPacket) → decode_packet bytes ≡ decoded
      → Counts r (elim decoded as (λ _. Receiver × Handled) [
        | err bad_struct ↦ (r, raised)
        | err e ↦ (reject_datagram clock e a t r, ignored)
        | ok packet ↦
            if is_not_allowed r a t
            then (reject_host clock a r, ignored)
            else process_packet env clock packet a t r
      ])
  decided-Counts bytes r range h (err bad_struct) decoded =
      absurd (decode_packet-ne-bad_struct bytes decoded)
  decided-Counts bytes r range h (err e) decoded =
      let same = ap tally_of (core-reject_datagram clock e a t r) in
      (λ x. cc, ground arith, ground arith)
  decided-Counts bytes r range h (ok packet) decoded = elim (Bool-cases (is_not_allowed r a t)) [
    | inl out ↦
        let same = ap tally_of (core-reject_host clock a r) in
        rw out (λ x. cc, ground arith, ground arith)
    | inr fine ↦
        rw fine
          (process_packet-Counts packet r (decode_packet-IsInRange bytes packet range decoded) h)
  ]

-- Whatever bytes arrive from whatever sender, and whatever the callbacks, the clocks and the transport do:
-- if the configured code has 25 bits, `_process_data` lets no `ValueError` and no `struct.error` out, counts
-- one datagram more, and counts it once, as valid or as rejected.
pub process_data_counts :
    (env : Env) (clock : Clock) (bytes : List ℕ) (a : Address) (t : TransportKind) (r : Receiver)
    → All IsByte bytes
    → HasRange r.pairing_token
    → ((process_data env clock bytes a t r).1 ≢ raised)
      × ((process_data env clock bytes a t r).0.datagrams_received ≡ r.datagrams_received + 1)
      × ((process_data env clock bytes a t r).0.valid_packets
            + (process_data env clock bytes a t r).0.rejected_datagrams
          ≡ r.valid_packets + r.rejected_datagrams + 1)
unfolding process_data
process_data_counts env clock bytes a t r range h =
    let arrived = arrive env clock a t r in
    let same = ap tally_of (core-arrive env clock a t r) in
    let token = ap (λ (x : Tally). x.pairing_token) same in
    let (fine, received, total) =
      decided-Counts env clock a t bytes arrived range (λ k e. h k (sym token ∙ e))
        (decode_packet bytes) refl in
    (fine, received ∙ ap (λ (x : Tally). x.datagrams_received) same, ground arith)
