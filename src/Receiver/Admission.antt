-- ===== src/Receiver/Admission.antt =====
-- A paired packet takes control when nobody has it.
use niw_pspto_pc.Base.{
  ℕ, ◌+◌, ◌<◌, ◌^◌, ◌≡◌, refl, ap, sym, ◌∙◌, false, List, ◌∷◌, Option, none, option_eq, All, ◌&&◌,
  if◌then◌else◌,
}
use niw_pspto_pc.Base.Dict.{lookup, member}
use niw_pspto_pc.Struct.{IsByte}
use niw_pspto_pc.Protocol.{InputPacket, ok, decode_packet}
use niw_pspto_pc.Protocol.Bounds.{IsInRange, decode_packet-IsInRange}
use niw_pspto_pc.Receiver.State.{
  Receiver, TransportKind, Address, address_eq, Env, Clock, valid_packet,
}
use niw_pspto_pc.Receiver.Effects.{emit_stage}
use niw_pspto_pc.Receiver.Core.{Core, core, core-emit_stage, core-publish}
use niw_pspto_pc.Receiver.Clients.{is_timed_out}
use niw_pspto_pc.Receiver.Handle.{Handled, admit, handle_packet, is_unpaired}
use niw_pspto_pc.Receiver.Process.{is_not_allowed, process_packet, arrive, process_data}
use niw_pspto_pc.Receiver.Process.Data.{core-arrive, settled}
use niw_pspto_pc.Receiver.Tally.{Tally, handle_packet_tallies}
use niw_pspto_pc.Receiver.Accounts.{HasRange, conclude_counts}
use niw_pspto_pc.Receiver.Calls.{packet_calls, is_given}
use niw_pspto_pc.Receiver.Delivery.{same_unpaired, same_listed, called-process_data}
use niw_pspto_pc.Receiver.Sequence.{is_fresh}
use niw_pspto_pc.Receiver.Choice.{IsFree, TakesControl, admit-TakesControl}

handle_packet-TakesControl :
    (env : Env) (clock : Clock) (packet : InputPacket) (a : Address) (t : TransportKind) (now : ℕ)
    (r : Receiver)
    → packet.sequence < 2 ^ 32
    → is_unpaired r packet t ≡ false
    → IsFree r now
    → member a r.blocked_clients ≡ false
    → TakesControl packet a (lookup a r.clients ≡ none) (handle_packet env clock packet a t now r)
unfolding handle_packet
handle_packet-TakesControl env clock packet a t now r small paired free allowed =
    let k = admit-TakesControl clock packet a t now r small free allowed in
    let same = core-publish env clock k.snapshot (admit clock packet a t now r).0 in
    rw (paired, handle_packet, k.outcome)
      (record {
        snapshot = k.snapshot;
        outcome = refl;
        packet_shown = k.packet_shown;
        address_shown = k.address_shown;
        active = ap (λ (c : Core). c.active_client) same ∙ k.active;
        active_shown = k.active_shown;
        updates = k.updates;
        newcomer = k.newcomer;
      })

settled-TakesControl :
    (env : Env) (clock : Clock) (packet : InputPacket) (a : Address) (t : TransportKind)
    (p : Receiver × Handled) {N : Type 0}
    → IsInRange packet
    → HasRange p.0.pairing_token
    → TakesControl packet a N p
    → TakesControl packet a N (settled env clock a t packet p)
unfolding settled
settled-TakesControl env clock packet a t p range token k =
    let (kept, outcome) = conclude_counts env clock packet k.snapshot a t p.0 range token in
    rw (k.outcome, settled)
      (record {
        snapshot = k.snapshot;
        outcome = outcome;
        packet_shown = k.packet_shown;
        address_shown = k.address_shown;
        active = ap (λ (x : Tally × Option Address). x.1) kept ∙ k.active;
        active_shown = k.active_shown;
        updates = k.updates;
        newcomer = k.newcomer;
      })

same-IsFree : (r s : Receiver) (now : ℕ) → core s ≡ core r → IsFree r now → IsFree s now
unfolding is_timed_out
same-IsFree r s now same free a held =
    let config = ap (λ (c : Core). c.config) same in
    let clients = ap (λ (c : Core). c.clients) same in
    let active = ap (λ (c : Core). c.active_client) same in
    rw (config, clients) (free a (sym active ∙ held))

process_packet-TakesControl :
    (env : Env) (clock : Clock) (packet : InputPacket) (a : Address) (t : TransportKind)
    (r : Receiver)
    → IsInRange packet
    → HasRange r.pairing_token
    → is_unpaired r packet t ≡ false
    → IsFree r clock.received_at
    → member a r.blocked_clients ≡ false
    → TakesControl packet a (lookup a r.clients ≡ none) (process_packet env clock packet a t r)
unfolding process_packet settled emit_stage
process_packet-TakesControl env clock packet a t r range token paired free allowed =
    let valid = emit_stage env valid_packet a t r in
    let same = core-emit_stage env valid_packet a t r in
    let clients = ap (λ (c : Core). c.clients) same in
    let blocked = ap (λ (c : Core). c.blocked_clients) same in
    let code = ap (λ (c : Core). c.pairing_token) same in
    let (kept, fine) =
      handle_packet_tallies env clock packet a t clock.received_at valid range.sequence in
    let code' = ap (λ (x : Tally). x.pairing_token) kept in
    let k =
      handle_packet-TakesControl env clock packet a t clock.received_at valid range.sequence
        (same_unpaired r valid packet t same paired)
        (same-IsFree r valid clock.received_at same free) (rw blocked allowed) in
    settled-TakesControl env clock packet a t
      (handle_packet env clock packet a t clock.received_at valid) range
      (λ n e. token n (sym (code' ∙ code) ∙ e)) (rw clients at k)

process_data_admits :
    (env : Env) (clock : Clock) (bytes : List ℕ) (packet : InputPacket) (a : Address)
    (t : TransportKind) (r : Receiver)
    → All IsByte bytes
    → decode_packet bytes ≡ ok packet
    → HasRange r.pairing_token
    → is_not_allowed r a t ≡ false
    → is_unpaired r packet t ≡ false
    → IsFree r clock.received_at
    → member a r.blocked_clients ≡ false
    → TakesControl packet a (lookup a r.clients ≡ none) (process_data env clock bytes a t r)
unfolding process_data is_unpaired is_timed_out lookup emit_stage
process_data_admits env clock bytes packet a t r range decoded token listed paired free allowed =
    let arrived = arrive env clock a t r in
    let counted : Receiver = record r { datagrams_received = r.datagrams_received + 1 } in
    let same = core-arrive env clock a t r in
    let clients = ap (λ (c : Core). c.clients) same in
    let blocked = ap (λ (c : Core). c.blocked_clients) same in
    let code = ap (λ (c : Core). c.pairing_token) same in
    let k =
      process_packet-TakesControl env clock packet a t arrived
        (decode_packet-IsInRange bytes packet range decoded) (λ n e. token n (sym code ∙ e))
        (same_unpaired counted arrived packet t same paired)
        (same-IsFree counted arrived clock.received_at same free) (rw blocked allowed) in
    rw (decoded, process_data, same_listed counted arrived a t same listed) (rw clients at k)

-- An accepted datagram takes control when nobody has it: if the bytes decode, its sender is allowed, has
-- the code where one is needed, is not blocked, and no other client is active within its timeout, then
-- `_process_data` handles the packet, its sender is the active client afterwards, the snapshot says so, and
-- `on_packet`, where there is one, is called once with that snapshot if its place in the sequence is fresh,
-- as it is for a sender without a state, and is not called otherwise.
pub process_data-TakesControl :
    (env : Env) (clock : Clock) (bytes : List ℕ) (packet : InputPacket) (a : Address)
    (t : TransportKind) (r : Receiver)
    → All IsByte bytes
    → decode_packet bytes ≡ ok packet
    → HasRange r.pairing_token
    → is_not_allowed r a t ≡ false
    → is_unpaired r packet t ≡ false
    → IsFree r clock.received_at
    → member a r.blocked_clients ≡ false
    → (k : TakesControl packet a (lookup a r.clients ≡ none) (process_data env clock bytes a t r))
      × (packet_calls (process_data env clock bytes a t r).0.trace ≡ (
          if is_given env.on_packet && is_fresh k.snapshot.sequence_result.event
          then k.snapshot ∷ packet_calls r.trace
          else packet_calls r.trace))
process_data-TakesControl env clock bytes packet a t r range decoded token listed paired free
      allowed =
    let k =
      process_data_admits env clock bytes packet a t r range decoded token listed paired free
        allowed in
    (
      k,
      rw (← k.updates) (
          called-process_data env clock bytes packet a t r k.snapshot range decoded token listed
            paired k.outcome),
    )
