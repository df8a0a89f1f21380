-- ===== src/Receiver/Tally.antt =====
-- What `_handle_packet` of pc-server/pc_server/receiver.py leaves alone: the counters of datagrams.
use niw_pspto_pc.Base.{
  ℕ, ◌+◌, ◌<◌, ◌^◌, ◌≡◌, ◌≢◌, refl, ap, ◌∙◌, List, [], ◌∷◌, Option, none, leb, option_eq, nat_eq,
  string_eq, Bool-cases, Option-cases, inl, inr, arith,
}
use niw_pspto_pc.Base.Dict.{lookup, insert}
use niw_pspto_pc.Protocol.{InputPacket}
use niw_pspto_pc.Receiver.Sequence.{observe, SequenceTracker}
use niw_pspto_pc.Receiver.State.{
  Receiver, ReceiverSnapshot, ClientState, TransportKind, Address, address_eq, Env, Clock,
}
use niw_pspto_pc.Receiver.Core.{Core, core-publish, core-reject_unpaired}
use niw_pspto_pc.Receiver.Clients.{
  drop_client, drop_clients, addresses_where, release_timed_out, drop_expired, maintain_clients,
}
use niw_pspto_pc.Receiver.Handle.{
  handled, raised, Choice, unchanged, selected, switched_from, apply_choice, hand_over,
  choose_active, renew, or_new_client, track, admit, handle_packet, is_unpaired,
}

-- The counters of datagrams, and the code.
pub record Tally : Type 0 where
  pub datagrams_received : ℕ
  pub valid_packets : ℕ
  pub rejected_datagrams : ℕ
  pub pairing_token : Option ℕ

abbrev pub tally : Receiver → Tally
tally r = record {
  datagrams_received = r.datagrams_received;
  valid_packets = r.valid_packets;
  rejected_datagrams = r.rejected_datagrams;
  pairing_token = r.pairing_token;
}

abbrev pub tally_of : Core → Tally
tally_of c = record {
  datagrams_received = c.datagrams_received;
  valid_packets = c.valid_packets;
  rejected_datagrams = c.rejected_datagrams;
  pairing_token = c.pairing_token;
}

tally-drop_clients : (gone : List Address) (r : Receiver) → tally (drop_clients gone r) ≡ tally r
unfolding drop_clients drop_client
tally-drop_clients [] r = refl
tally-drop_clients (a ∷ gone) r = tally-drop_clients gone (drop_client r a)

tally-release_timed_out : (r : Receiver) (now : ℕ) → tally (release_timed_out r now) ≡ tally r
unfolding release_timed_out
tally-release_timed_out r now = ground arith

tally-maintain_clients : (r : Receiver) (now : ℕ) → tally (maintain_clients r now) ≡ tally r
unfolding maintain_clients drop_expired
tally-maintain_clients r now =
    let released = release_timed_out r now in
    let gone =
      addresses_where (λ state. leb (state.last_seen + released.config.client_retention) now)
        released.clients in
    tally-drop_clients gone released ∙ tally-release_timed_out r now

tally-apply_choice :
    (choice : Choice) (a : Address) (t : TransportKind) (r : Receiver)
    → tally (apply_choice choice a t r) ≡ tally r
unfolding apply_choice
tally-apply_choice unchanged a t r = refl
tally-apply_choice selected a t r = refl
tally-apply_choice (switched_from old) a t r = refl

-- A sequence number of 32 bits is observed.
pub observe_total :
    (tracker : SequenceTracker) (sequence : ℕ) → sequence < 2 ^ 32 → observe tracker sequence ≢ none
unfolding observe
observe_total tracker sequence small h = ground arith

track_tallies :
    (clock : Clock) (packet : InputPacket) (a : Address) (t : TransportKind) (now : ℕ)
    (state : ClientState) (r : Receiver)
    → packet.sequence < 2 ^ 32
    → (tally (track clock packet a t now state r).0 ≡ tally r)
      × ((s : ReceiverSnapshot) × ((track clock packet a t now state r).1 ≡ handled s))
unfolding track
track_tallies clock packet a t now state r small =
    elim (Option-cases (observe state.sequences packet.sequence)) [
      | inl bad ↦ absurd (observe_total state.sequences packet.sequence small bad)
      | inr ((tracker, result), e) ↦ rw (e, track) (ground arith, (_, refl))
    ]

admit_tallies :
    (clock : Clock) (packet : InputPacket) (a : Address) (t : TransportKind) (now : ℕ)
    (r : Receiver)
    → packet.sequence < 2 ^ 32
    → (tally (admit clock packet a t now r).0 ≡ tally r)
      × ((s : ReceiverSnapshot) × ((admit clock packet a t now r).1 ≡ handled s))
unfolding admit
admit_tallies clock packet a t now r small =
    let kept = maintain_clients r now in
    let state =
      renew kept.config.active_client_timeout packet t now
        (or_new_client (lookup a kept.clients)) in
    let present : Receiver = record kept { clients = insert a state kept.clients } in
    let choice = choose_active present packet a t now in
    let (same, outcome) =
      track_tallies clock packet a t now (hand_over choice state) (apply_choice choice a t present)
        small in
    (same ∙ tally-apply_choice choice a t present ∙ tally-maintain_clients r now, outcome)

-- A packet is ignored or handled, and no counter of datagrams changes.
pub handle_packet_tallies :
    (env : Env) (clock : Clock) (packet : InputPacket) (a : Address) (t : TransportKind) (now : ℕ)
    (r : Receiver)
    → packet.sequence < 2 ^ 32
    → (tally (handle_packet env clock packet a t now r).0 ≡ tally r)
      × ((handle_packet env clock packet a t now r).1 ≢ raised)
unfolding handle_packet
handle_packet_tallies env clock packet a t now r small =
    elim (Bool-cases (is_unpaired r packet t)) [
      | inl out ↦
          rw (out, handle_packet) (ap tally_of (core-reject_unpaired r packet a now), λ h. cc)
      | inr paired ↦
          let (same, (s, outcome)) = admit_tallies clock packet a t now r small in
          rw (paired, handle_packet, outcome)
            (
              ap tally_of (core-publish env clock s (admit clock packet a t now r).0) ∙ same,
              λ h. cc,
            )
    ]
