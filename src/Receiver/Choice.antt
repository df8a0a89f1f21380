-- ===== src/Receiver/Choice.antt =====
-- The choice of the active client, when nobody is in control.
use niw_pspto_pc.Base.{
  ℕ, ◌+◌, ◌<◌, ◌^◌, ◌≡◌, refl, ◌∙◌, Bool, true, false, Option, none, some, leb, equals, option_eq,
  Option-cases, inl, inr, arith, if◌then◌else◌,
}
use niw_pspto_pc.Base.Dict.{lookup, insert, member}
use niw_pspto_pc.Protocol.{InputPacket}
use niw_pspto_pc.Receiver.Sequence.{observe, is_fresh, SequenceResult, SequenceTracker, new_tracker}
use niw_pspto_pc.Receiver.State.{
  Receiver, ReceiverSnapshot, ClientState, TransportKind, Address, address_eq, Clock,
}
use niw_pspto_pc.Receiver.Clients.{
  addresses_where, is_timed_out, release_timed_out, drop_expired, maintain_clients,
}
use niw_pspto_pc.Receiver.Clients.Laws.{
  lookup-drop_clients, blocked-drop_clients, drop_clients-SameRest,
}
use niw_pspto_pc.Receiver.Handle.{
  Handled, handled, selected, apply_choice, hand_over, choose_active, renew, or_new_client, track,
  admit,
}
use niw_pspto_pc.Receiver.Tally.{observe_total}

-- Nobody is in control, or who is has been silent for the timeout.
abbrev pub IsFree : Receiver → ℕ → Type 0
IsFree r now = (a : Address) → r.active_client ≡ some a → is_timed_out r a now ≡ true

active-release_timed_out :
    (r : Receiver) (now : ℕ) → IsFree r now → (release_timed_out r now).active_client ≡ none
unfolding release_timed_out
active-release_timed_out r now free = elim (Option-cases r.active_client) [
  | inl nobody ↦ rw (nobody, release_timed_out) nobody
  | inr (a, held) ↦ rw (held, release_timed_out, free a held) refl
]

active-maintain_clients :
    (r : Receiver) (now : ℕ) → IsFree r now → (maintain_clients r now).active_client ≡ none
unfolding maintain_clients drop_expired
active-maintain_clients r now free =
    let released = release_timed_out r now in
    let gone =
      addresses_where (λ state. leb (state.last_seen + released.config.client_retention) now)
        released.clients in
    (drop_clients-SameRest gone released).active_client ∙ active-release_timed_out r now free

free_selects :
    (r : Receiver) (packet : InputPacket) (a : Address) (t : TransportKind) (now : ℕ)
    → r.active_client ≡ none
    → member a r.blocked_clients ≡ false
    → choose_active r packet a t now ≡ selected
unfolding choose_active
free_selects r packet a t now nobody allowed = rw (allowed, choose_active, nobody) refl

-- How a packet that takes control comes out: its sender is the active client, and its snapshot tells
-- so and updates the state if its place in the sequence is fresh. `N` stands for a sender that is new.
pub record TakesControl (packet : InputPacket) (a : Address) (N : Type 0) (p : Receiver × Handled)
    : Type 0 where
  pub snapshot : ReceiverSnapshot
  pub outcome : p.1 ≡ handled snapshot
  pub packet_shown : snapshot.packet ≡ packet
  pub address_shown : snapshot.address ≡ a
  pub active : p.0.active_client ≡ some a
  pub active_shown : snapshot.is_active_client ≡ true
  pub updates : snapshot.is_state_update ≡ is_fresh snapshot.sequence_result.event
  pub newcomer : N → snapshot.is_state_update ≡ true

first_is_fresh :
    (sequence : ℕ) {tracker : SequenceTracker} {result : SequenceResult}
    → observe new_tracker sequence ≡ some (tracker, result)
    → is_fresh result.event ≡ true
unfolding observe
first_is_fresh sequence e = ground arith

track-TakesControl :
    (clock : Clock) (packet : InputPacket) (a : Address) (t : TransportKind) (now : ℕ)
    (state : ClientState) (r : Receiver)
    → packet.sequence < 2 ^ 32
    → r.active_client ≡ some a
    → TakesControl packet a (state.sequences ≡ new_tracker) (track clock packet a t now state r)
unfolding track
track-TakesControl clock packet a t now state r small held =
    let known : equals r.active_client (some a) ≡ true = ground (arith, address_eq.beq_iff a a) in
    elim (Option-cases (observe state.sequences packet.sequence)) [
      | inl bad ↦ absurd (observe_total state.sequences packet.sequence small bad)
      | inr ((tracker, result), e) ↦
          rw (e, track, known)
            (record {
              snapshot = _;
              outcome = refl;
              packet_shown = refl;
              address_shown = refl;
              active = held;
              active_shown = refl;
              updates = refl;
              newcomer = λ new. first_is_fresh packet.sequence (rw new at e);
            })
    ]

-- A client without a state starts a sequence of its own.
newcomer_starts :
    (timeout : ℕ) (packet : InputPacket) (t : TransportKind) (now : ℕ) (o : Option ClientState)
    → o ≡ none
    → (hand_over selected (renew timeout packet t now (or_new_client o))).sequences ≡ new_tracker
unfolding hand_over renew
newcomer_starts timeout packet t now none e = ground arith
newcomer_starts timeout packet t now (some state) e = cc

clients-release_timed_out : (r : Receiver) (now : ℕ) → (release_timed_out r now).clients ≡ r.clients
unfolding release_timed_out
clients-release_timed_out r now = ground arith

blocked-release_timed_out :
    (r : Receiver) (now : ℕ) → (release_timed_out r now).blocked_clients ≡ r.blocked_clients
unfolding release_timed_out
blocked-release_timed_out r now = ground arith

-- The maintenance neither blocks an address nor gives it a state.
maintain_clients_adds_none :
    (r : Receiver) (now : ℕ) (a : Address)
    → (member a r.blocked_clients ≡ false
        → member a (maintain_clients r now).blocked_clients ≡ false)
      × (lookup a r.clients ≡ none → lookup a (maintain_clients r now).clients ≡ none)
unfolding maintain_clients drop_expired
maintain_clients_adds_none r now a =
    let released = release_timed_out r now in
    let gone =
      addresses_where (λ state. leb (state.last_seen + released.config.client_retention) now)
        released.clients in
    (
      λ free.
          rw (blocked-drop_clients a gone released, blocked-release_timed_out r now)
            (if_same _ free),
      λ new.
          rw (lookup-drop_clients a gone released, clients-release_timed_out r now) (if_same _ new),
    )
  where
    if_same : {A : Type 0} (b : Bool) {x y : A} → y ≡ x → (if b then x else y) ≡ x
    if_same true e = refl
    if_same false e = e

pub admit-TakesControl :
    (clock : Clock) (packet : InputPacket) (a : Address) (t : TransportKind) (now : ℕ)
    (r : Receiver)
    → packet.sequence < 2 ^ 32
    → IsFree r now
    → member a r.blocked_clients ≡ false
    → TakesControl packet a (lookup a r.clients ≡ none) (admit clock packet a t now r)
unfolding admit apply_choice
admit-TakesControl clock packet a t now r small free allowed =
    let kept = maintain_clients r now in
    let state =
      renew kept.config.active_client_timeout packet t now
        (or_new_client (lookup a kept.clients)) in
    let present : Receiver = record kept { clients = insert a state kept.clients } in
    let (unblocked, stateless) = maintain_clients_adds_none r now a in
    let choice =
      free_selects present packet a t now (active-maintain_clients r now free)
        (unblocked allowed) in
    let k =
      track-TakesControl clock packet a t now (hand_over selected state)
        (apply_choice selected a t present) small refl in
    rw (choice, admit)
      (record {
        snapshot = k.snapshot;
        outcome = k.outcome;
        packet_shown = k.packet_shown;
        address_shown = k.address_shown;
        active = k.active;
        active_shown = k.active_shown;
        updates = k.updates;
        newcomer = λ new. k.newcomer (
            newcomer_starts kept.config.active_client_timeout packet t now (lookup a kept.clients)
              (stateless new));
      })
