-- ===== src/Receiver/Takeover.antt =====
-- Who may become the active client.
use niw_pspto_pc.Base.{
  ℕ, ◌+◌, ◌≤◌, ◌≡◌, ◌≢◌, refl, ap, ◌∙◌, true, false, none, some, equals, ◌⊎◌, inl, inr, leb,
  Bool-cases, Option-cases, arith, option_eq, option_beq_iff, nat_eq, not, ◌&&◌,
}
use niw_pspto_pc.Base.Dict.{lookup, insert, lookup-insert}
use niw_pspto_pc.Protocol.{InputPacket}
use niw_pspto_pc.Receiver.Sequence.{observe}
use niw_pspto_pc.Receiver.Rate.{observe_rate}
use niw_pspto_pc.Receiver.State.{
  Receiver, ClientState, TransportKind, Address, address_eq, Env, Clock, log_inactive,
  transport_switch_grace, same_transport_iff,
}
use niw_pspto_pc.Receiver.Core.{Core, core-emit_if, core-publish, core-reject_unpaired}
use niw_pspto_pc.Receiver.Clients.{
  addresses_where, is_timed_out, release_timed_out, drop_expired, maintain_clients,
}
use niw_pspto_pc.Receiver.Clients.Laws.{lookup-drop_clients, drop_clients-SameRest}
use niw_pspto_pc.Receiver.Handle.{
  Handled, ignored, handled, raised, is_unpaired, choose_active, apply_choice, may_switch,
  hand_over, track, renew, or_new_client, admit, handle_packet, count_packet, publish,
}

-- Why the client at `a` may lose control at `now` to a packet that came over `t`.
abbrev pub MayLose : Receiver → Address → InputPacket → TransportKind → ℕ → Type 0
MayLose r a packet t now =
    ((lookup a r.clients ≡ none)
      ⊎ ((s : ClientState) × (lookup a r.clients ≡ some s)
          × (s.last_fresh_state + r.config.active_client_timeout ≤ now)))
    ⊎ ((s : ClientState) × (lookup a r.clients ≡ some s)
        × (s.transport ≢ t)
        × (s.session_token ≢ none)
        × (s.session_token ≡ packet.session_token)
        × (s.last_fresh_state + transport_switch_grace ≤ now))

is_timed_out_parts :
    (r : Receiver) (a : Address) (now : ℕ)
    → is_timed_out r a now ≡ true
    → (lookup a r.clients ≡ none)
      ⊎ ((s : ClientState) × (lookup a r.clients ≡ some s)
          × (s.last_fresh_state + r.config.active_client_timeout ≤ now))
unfolding is_timed_out
is_timed_out_parts r a now h = elim (Option-cases (lookup a r.clients)) [
  | inl lost ↦ inl lost
  | inr (s, found) ↦ inr (s, found, ground arith)
]

may_switch_parts :
    (s : ClientState) (packet : InputPacket) (t : TransportKind) (now : ℕ)
    → may_switch s packet t now ≡ true
    → (s.transport ≢ t)
      × (s.session_token ≢ none)
      × (s.session_token ≡ packet.session_token)
      × (s.last_fresh_state + transport_switch_grace ≤ now)
unfolding may_switch
may_switch_parts s packet t now h = elim (Option-cases s.session_token) [
  | inl bare ↦ absurd (ground arith)
  | inr (token, held) ↦ (
    ground (arith, same_transport_iff s.transport t),
    ground arith,
    ground (arith, option_beq_iff (some token) packet.session_token),
    ground arith,
  )
]

active-track :
    (clock : Clock) (packet : InputPacket) (a : Address) (t : TransportKind) (now : ℕ)
    (state : ClientState) (r : Receiver)
    → (track clock packet a t now state r).0.active_client ≡ r.active_client
unfolding track
active-track clock packet a t now state r =
    elim (Option-cases (observe state.sequences packet.sequence)) [
      | inl bad ↦ rw (bad, track) refl
      | inr ((tracker, result), good) ↦
          let (rate, per_second) = observe_rate state.rate now in
          let is_active = equals r.active_client (some a) in
          let counted = count_packet state tracker result rate now is_active in
          let stored : Receiver = record r { clients = insert a counted r.clients } in
          rw (good, track)
            (ap (λ (c : Core). c.active_client)
              (core-emit_if (not is_active && not state.inactive_warning_logged) (log_inactive a)
                stored))
    ]

active-apply_choice :
    (r : Receiver) (packet : InputPacket) (a b : Address) (t : TransportKind) (now : ℕ)
    → r.active_client ≡ some a
    → (apply_choice (choose_active r packet b t now) b t r).active_client ≢ some a
    → (s : ClientState) × (lookup a r.clients ≡ some s) × (may_switch s packet t now ≡ true)
unfolding choose_active apply_choice
active-apply_choice r packet a b t now e h = elim (Option-cases (lookup a r.clients)) [
  | inl lost ↦ absurd (ground arith)
  | inr (s, found) ↦ (s, found, ground arith)
]

active-release_timed_out :
    (r : Receiver) (now : ℕ) (a : Address)
    → r.active_client ≡ some a
    → is_timed_out r a now ≡ false
    → ((release_timed_out r now).active_client ≡ some a)
      × ((release_timed_out r now).clients ≡ r.clients)
unfolding release_timed_out
active-release_timed_out r now a e h = ground arith

-- The maintained receiver of a client that has not timed out.
active-maintain_clients :
    (r : Receiver) (now : ℕ) (a : Address)
    → r.active_client ≡ some a
    → is_timed_out r a now ≡ false
    → ((maintain_clients r now).active_client ≡ some a)
      × ((s : ClientState)
          → lookup a (maintain_clients r now).clients ≡ some s
          → lookup a r.clients ≡ some s)
unfolding maintain_clients drop_expired
active-maintain_clients r now a e h =
    let half = release_timed_out r now in
    let (active, clients) = active-release_timed_out r now a e h in
    let gone =
      addresses_where (λ state. leb (state.last_seen + half.config.client_retention) now)
        half.clients in
    let same = drop_clients-SameRest gone half in
    (
      same.active_client ∙ active,
      λ s found. ground (arith, lookup-drop_clients a gone half, clients),
    )

active-admit :
    (clock : Clock) (packet : InputPacket) (a b : Address) (t : TransportKind) (now : ℕ)
    (r : Receiver)
    → r.active_client ≡ some a
    → a ≢ b
    → (admit clock packet b t now r).0.active_client ≢ some a
    → MayLose r a packet t now
unfolding admit
active-admit clock packet a b t now r e ne h = elim (Bool-cases (is_timed_out r a now)) [
  | inl silent ↦ inl (is_timed_out_parts r a now silent)
  | inr alive ↦
      let kept = maintain_clients r now in
      let (active, older) = active-maintain_clients r now a e alive in
      let state =
        renew kept.config.active_client_timeout packet t now
          (or_new_client (lookup b kept.clients)) in
      let present : Receiver = record kept { clients = insert b state kept.clients } in
      let choice = choose_active present packet b t now in
      let moved : (apply_choice choice b t present).active_client ≢ some a = λ p. h (
        active-track clock packet b t now (hand_over choice state) (apply_choice choice b t present)
        ∙ p) in
      let (s, found, may) = active-apply_choice present packet a b t now active moved in
      let before : lookup a kept.clients ≡ some s =
        ground (arith, lookup-insert b a state kept.clients, address_eq.beq_iff b a) in
      let (x, y, z, w) = may_switch_parts s packet t now may in inr (s, older s before, x, y, z, w)
]

published-active :
    (env : Env) (clock : Clock) (p : Receiver × Handled)
    → (elim p.1 as (λ _. Receiver × Handled) [
      | handled snapshot ↦ (publish env clock snapshot p.0, handled snapshot)
      | ignored ↦ (p.0, ignored)
      | raised ↦ (p.0, raised)
    ]).0.active_client
      ≡ p.0.active_client
published-active env clock (r, ignored) = refl
published-active env clock (r, handled s) =
    ap (λ (c : Core). c.active_client) (core-publish env clock s r)
published-active env clock (r, raised) = refl

-- If a packet from one address ends the control of the active client at another, then that client
-- had no state or no fresh packet for the whole timeout; or the packet comes over the other
-- transport with the token of that client's session, and the client has sent nothing fresh for
-- 0.15 seconds.
pub handle_packet_exclusive :
    (env : Env) (clock : Clock) (packet : InputPacket) (a b : Address) (t : TransportKind) (now : ℕ)
    (r : Receiver)
    → r.active_client ≡ some a
    → a ≢ b
    → (handle_packet env clock packet b t now r).0.active_client ≢ some a
    → MayLose r a packet t now
unfolding handle_packet
handle_packet_exclusive env clock packet a b t now r e ne h =
    elim (Bool-cases (is_unpaired r packet t)) [
      | inl out ↦ absurd (
          h (
            rw (out, handle_packet)
              (ap (λ (c : Core). c.active_client) (core-reject_unpaired r packet b now) ∙ e)))
      | inr paired ↦ active-admit clock packet a b t now r e ne (λ p. h (
          rw (paired, handle_packet)
            (published-active env clock (admit clock packet b t now r) ∙ p)))
    ]
