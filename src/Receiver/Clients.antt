-- ===== src/Receiver/Clients.antt =====
-- The methods of `UdpReceiver` that add and drop clients outside a packet:
-- `_maintain_clients_locked`, `set_pairing_token`, `disconnect_active_client`, `allow_transport`.
pub mod Laws
use niw_pspto_pc.Base.{
  ℕ, ◌+◌, Bool, true, false, List, [], ◌∷◌, Option, none, some, ltb, leb, if◌then◌else◌,
}
use niw_pspto_pc.Base.Dict.{Dict, lookup, remove, member, add, discard}
use niw_pspto_pc.Protocol.{pairing_token_max}
use niw_pspto_pc.Receiver.State.{
  Receiver, ClientState, TransportKind, wifi, same_transport, Address, address_eq, log_timed_out,
}
use niw_pspto_pc.Receiver.Effects.{emit}
use mathlib.Core.List.{foldl}

-- The addresses of the clients that pass a test.
unfoldable pub addresses_where : (ClientState → Bool) → Dict Address ClientState → List Address
addresses_where p [] = []
addresses_where p ((a, state) ∷ clients) =
    if p state then a ∷ addresses_where p clients else addresses_where p clients

-- A client leaves `_clients`, `_blocked_clients` and `_last_ack_sent`.
unfoldable pub drop_client : Receiver → Address → Receiver
drop_client r a = record r {
  clients = remove a r.clients;
  blocked_clients = discard a r.blocked_clients;
  last_ack_sent = remove a r.last_ack_sent;
}

unfoldable pub drop_clients : List Address → Receiver → Receiver
unfolding drop_client
drop_clients [] r = r
drop_clients (a ∷ addresses) r = drop_clients addresses (drop_client r a)

-- Whether the active client has no state, or no fresh packet within the timeout.
unfoldable pub is_timed_out : Receiver → Address → ℕ → Bool
is_timed_out r a now = elim (lookup a r.clients) [
  | none ↦ true
  | some state ↦ leb (state.last_fresh_state + r.config.active_client_timeout) now
]

-- The first half of `_maintain_clients_locked`.
unfoldable pub release_timed_out : Receiver → ℕ → Receiver
unfolding is_timed_out
release_timed_out r now = elim r.active_client [
  | none ↦ r
  | some a ↦
      if is_timed_out r a now then record (emit log_timed_out r) { active_client = none } else r
]

-- The second half.
unfoldable pub drop_expired : Receiver → ℕ → Receiver
unfolding addresses_where drop_clients
drop_expired r now =
    drop_clients
      (addresses_where (λ state. leb (state.last_seen + r.config.client_retention) now) r.clients) r

-- `_maintain_clients_locked`, and `_maintain_clients`, which takes the lock.
unfoldable pub maintain_clients : Receiver → ℕ → Receiver
unfolding release_timed_out drop_expired
maintain_clients r now = drop_expired (release_timed_out r now) now

abbrev pub is_token : Option ℕ → Bool
is_token none = true
is_token (some t) = leb t pairing_token_max

-- `if self._active_client in wifi_clients: self._active_client = None`
unfoldable pub release_active_in : List Address → Receiver → Receiver
release_active_in addresses r = elim r.active_client [
  | none ↦ r
  | some a ↦ if member a addresses then record r { active_client = none } else r
]

-- `none` is the `ValueError` for a token that is no unsigned 25-bit integer.
unfoldable pub set_pairing_token : Receiver → Option ℕ → Option Receiver
unfolding addresses_where drop_clients release_active_in
set_pairing_token r token =
    if is_token token
    then (let wifi_clients =
          addresses_where (λ state. same_transport state.transport wifi) r.clients in
        some
          (record (release_active_in wifi_clients
            (drop_clients wifi_clients (record r { pairing_token = token }))) {
              rejected_pairings = [];
            }))
    else none

unfoldable pub disconnect_active_client : Receiver → Receiver × Option Address
disconnect_active_client r = elim r.active_client [
  | none ↦ (r, none)
  | some a ↦ (record r { blocked_clients = add a r.blocked_clients; active_client = none }, some a)
]

unfoldable pub discard_all : List Address → List Address → List Address
discard_all [] blocked = blocked
discard_all (a ∷ addresses) blocked = discard_all addresses (discard a blocked)

unfoldable pub allow_transport : Receiver → TransportKind → Receiver
unfolding addresses_where discard_all
allow_transport r transport = record r {
  blocked_clients =
      discard_all (addresses_where (λ state. same_transport state.transport transport) r.clients)
        r.blocked_clients;
}
