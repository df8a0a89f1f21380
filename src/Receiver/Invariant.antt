-- ===== src/Receiver/Invariant.antt =====
-- The invariant of `UdpReceiver`, kept by every method of Receiver/Clients.
pub mod Packets
use niw_pspto_pc.Base.{
  ℕ, ◌+◌, ◌≤◌, ◌<◌, ◌≡◌, refl, Bool, true, false, List, [], ◌∷◌, Option, none, some, equals, leb,
  Bool-cases, Option-cases, inl, inr, arith, if◌then◌else◌,
}
use niw_pspto_pc.Base.Dict.{lookup, has, member, add, IsDistinct, member-add}
use niw_pspto_pc.Receiver.State.{
  Receiver, ClientState, TransportKind, wifi, same_transport, Address, address_eq,
}
use niw_pspto_pc.Receiver.Effects.{emit}
use niw_pspto_pc.Receiver.Clients.{
  addresses_where, drop_clients, is_timed_out, release_timed_out, drop_expired, maintain_clients,
  is_token, release_active_in, set_pairing_token, disconnect_active_client, discard_all,
  allow_transport,
}
use niw_pspto_pc.Receiver.Clients.Laws.{
  passes, member-addresses_where, lookup-drop_clients, blocked-drop_clients, acked-drop_clients,
  member-discard_all, IsDistinct-drop_clients, drop_clients-SameRest,
}

abbrev pub FreshSeen : Option ClientState → Type 0
FreshSeen none = Unit
FreshSeen (some state) = state.last_fresh_state ≤ state.last_seen

-- Of each address: the active client has a state and is not blocked; what is blocked or was
-- acknowledged has a state; and no client is fresher than seen.
pub record IsSound (r : Receiver) (a : Address) : Type 0 where
  pub active_known : r.active_client ≡ some a → has a r.clients ≡ true
  pub active_free : r.active_client ≡ some a → member a r.blocked_clients ≡ false
  pub blocked_known : member a r.blocked_clients ≡ true → has a r.clients ≡ true
  pub acked_known : has a r.last_ack_sent ≡ true → has a r.clients ≡ true
  pub fresh_seen : FreshSeen (lookup a r.clients)

pub record IsConsistent (r : Receiver) : Type 0 where
  pub sound : (a : Address) → IsSound r a
  pub distinct : IsDistinct r.clients
  pub token : is_token r.pairing_token ≡ true
  pub retention : r.config.active_client_timeout ≤ r.config.client_retention

release_timed_out-IsConsistent :
    (r : Receiver) (now : ℕ) → IsConsistent r → IsConsistent (release_timed_out r now)
unfolding release_timed_out
release_timed_out-IsConsistent r now h = record {
  sound = λ a. let s = h.sound a in ground arith;
  distinct = ground (arith, h.distinct);
  token = ground (arith, h.token);
  retention = ground (arith, h.retention);
}

-- After the first half of the maintenance an active client has a fresh state.
released_alive :
    (r : Receiver) (now : ℕ) (a : Address)
    → (release_timed_out r now).active_client ≡ some a
    → is_timed_out (release_timed_out r now) a now ≡ false
unfolding release_timed_out is_timed_out
released_alive r now a e = ground arith

-- Dropping the clients that pass a test keeps the invariant, if the active client does not pass.
drop_where-IsConsistent :
    (p : ClientState → Bool) (r : Receiver)
    → ((a : Address) → r.active_client ≡ some a → passes p (lookup a r.clients) ≡ false)
    → IsConsistent r
    → IsConsistent (drop_clients (addresses_where p r.clients) r)
drop_where-IsConsistent p r alive h =
    let gone = addresses_where p r.clients in
    let same = drop_clients-SameRest gone r in
    record {
      sound = λ a.
          let s = h.sound a in
          let m = member-addresses_where p a r.clients h.distinct in
          record {
            active_known = λ e.
                ground (
                  arith,
                  lookup-drop_clients a gone r,
                  same.active_client,
                  alive a,
                  s.active_known,
                );
            active_free = λ e.
                ground (arith, blocked-drop_clients a gone r, same.active_client, s.active_free);
            blocked_known = λ e. ground (
              arith,
              lookup-drop_clients a gone r,
              blocked-drop_clients a gone r,
              s.blocked_known,
            );
            acked_known = λ e.
                ground
                  (arith, lookup-drop_clients a gone r, acked-drop_clients a gone r, s.acked_known);
            fresh_seen = rw lookup-drop_clients (ground (arith, s.fresh_seen));
          };
      distinct = IsDistinct-drop_clients gone r h.distinct;
      token = rw same.pairing_token h.token;
      retention = rw same.config h.retention;
    }

drop_expired-IsConsistent :
    (r : Receiver) (now : ℕ)
    → ((a : Address) → r.active_client ≡ some a → is_timed_out r a now ≡ false)
    → IsConsistent r
    → IsConsistent (drop_expired r now)
unfolding drop_expired is_timed_out
drop_expired-IsConsistent r now alive h =
    drop_where-IsConsistent (λ state. leb (state.last_seen + r.config.client_retention) now) r
      (λ a e. ground (arith, alive a e, (h.sound a).fresh_seen, h.retention)) h

-- The maintenance keeps the invariant.
pub maintain_clients-IsConsistent :
    (r : Receiver) (now : ℕ) → IsConsistent r → IsConsistent (maintain_clients r now)
unfolding maintain_clients
maintain_clients-IsConsistent r now h =
    drop_expired-IsConsistent (release_timed_out r now) now (released_alive r now)
      (release_timed_out-IsConsistent r now h)

-- A new Wi-Fi code keeps the invariant.
pub set_pairing_token-IsConsistent :
    (r : Receiver) (token : Option ℕ) {r' : Receiver}
    → set_pairing_token r token ≡ some r'
    → IsConsistent r
    → IsConsistent r'
unfolding set_pairing_token release_active_in
set_pairing_token-IsConsistent r token {r'} e h =
    let gone = addresses_where (λ state. same_transport state.transport wifi) r.clients in
    let base : Receiver = record r { pairing_token = token } in
    let same = drop_clients-SameRest gone base in
    let small : is_token token ≡ true = ground arith in
    record {
      sound = λ a.
          let s = h.sound a in
          let clients = lookup-drop_clients a gone base in
          let blocked = blocked-drop_clients a gone base in
          let acked = acked-drop_clients a gone base in
          let active = same.active_client in
          record {
            active_known = λ p. ground (arith, clients, active, s.active_known);
            active_free = λ p. ground (arith, blocked, active, s.active_free);
            blocked_known = λ p. ground (arith, clients, blocked, s.blocked_known);
            acked_known = λ p. ground (arith, clients, acked, s.acked_known);
            fresh_seen = ground (arith, clients, s.fresh_seen);
          };
      distinct = ground (arith, IsDistinct-drop_clients gone base h.distinct);
      token = ground (arith, same.pairing_token);
      retention = ground (arith, same.config, h.retention);
    }

-- Releasing and blocking the active client keeps the invariant.
pub disconnect_active_client-IsConsistent :
    (r : Receiver) → IsConsistent r → IsConsistent (disconnect_active_client r).0
unfolding disconnect_active_client
disconnect_active_client-IsConsistent r h = elim (Option-cases r.active_client) [
  | inl idle ↦ rw (idle, disconnect_active_client) h
  | inr (b, busy) ↦
      rw (busy, disconnect_active_client)
        (record {
          sound = λ a.
              let s = h.sound a in
              let known = (h.sound b).active_known busy in
              record {
                active_known = λ p. cc;
                active_free = λ p. cc;
                blocked_known = λ p. ground (
                  arith,
                  member-add b a r.blocked_clients,
                  address_eq.beq_iff b a,
                  s.blocked_known,
                );
                acked_known = s.acked_known;
                fresh_seen = s.fresh_seen;
              };
          distinct = h.distinct;
          token = h.token;
          retention = h.retention;
        })
]

-- Allowing a transport again keeps the invariant.
pub allow_transport-IsConsistent :
    (r : Receiver) (transport : TransportKind)
    → IsConsistent r
    → IsConsistent (allow_transport r transport)
unfolding allow_transport
allow_transport-IsConsistent r transport h =
    let free = addresses_where (λ state. same_transport state.transport transport) r.clients in
    record {
      sound = λ a.
          let s = h.sound a in
          let blocked = member-discard_all a free r.blocked_clients in
          record {
            active_known = s.active_known;
            active_free = λ p. ground (arith, blocked, s.active_free);
            blocked_known = λ p. ground (arith, blocked, s.blocked_known);
            acked_known = s.acked_known;
            fresh_seen = s.fresh_seen;
          };
      distinct = h.distinct;
      token = h.token;
      retention = h.retention;
    }
