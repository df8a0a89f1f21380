-- ===== src/Receiver/Run.antt =====
-- The life of an `UdpReceiver`: its constructor, and every order of the calls that its threads make.
-- The lock makes each method's effect on the fields one step; a datagram is one step from arrival
-- to ACK.
use niw_pspto_pc.Base.{ℕ, ◌≡◌, List, [], Option, none, some, ltb, ◌==◌, arith, if◌then◌else◌}
use niw_pspto_pc.Base.Dict.{lookup, member}
use niw_pspto_pc.Receiver.State.{
  Receiver, Config, TransportKind, usb, Address, address_eq, Env, Clock,
}
use niw_pspto_pc.Receiver.Clients.{
  maintain_clients, is_token, set_pairing_token, disconnect_active_client, allow_transport,
}
use niw_pspto_pc.Receiver.Metrics.{metrics, rejected_pairing_cache_size}
use niw_pspto_pc.Receiver.Metrics.Consistent.{metrics-IsConsistent, cache_size-IsConsistent}
use niw_pspto_pc.Receiver.Process.{process_data, handle_usb_data}
use niw_pspto_pc.Receiver.Process.Data.{process_data-IsConsistent}
use niw_pspto_pc.Receiver.Invariant.{
  IsConsistent, maintain_clients-IsConsistent, set_pairing_token-IsConsistent,
  disconnect_active_client-IsConsistent, allow_transport-IsConsistent,
}
use niw_pspto_pc.Receiver.Invariant.Packets.{SeenBy}

abbrev pub empty_receiver : Config → Option ℕ → Receiver
empty_receiver config token = record {
  config = config;
  pairing_token = token;
  clients = [];
  active_client = none;
  blocked_clients = [];
  rejected_hosts = [];
  rejected_pairings = [];
  rejection_logs = [];
  last_ack_sent = [];
  datagrams_received = 0;
  valid_packets = 0;
  rejected_datagrams = 0;
  pairing_rejections = 0;
  last_datagram_at = none;
  callback_errors = 0;
  callback_error_counts = [];
  trace = [];
}

-- `UdpReceiver(...)`; `none` is the `ValueError` for a timeout that is not positive, a retention
-- that is shorter, or a token that is no unsigned 25-bit integer.
unfoldable pub new_receiver : Config → Option ℕ → Option Receiver
new_receiver config token =
    if config.active_client_timeout == 0
    then none
    else if ltb config.client_retention config.active_client_timeout
    then none
    else if is_token token
    then some (empty_receiver config token)
    else none

-- One call. A datagram arrives no earlier than the last one from its sender.
pub data Step : Receiver → Receiver → Type 0 where
  datagram :
      (env : Env) (clock : Clock) (bytes : List ℕ) (a : Address) (t : TransportKind) (r : Receiver)
      → SeenBy (lookup a r.clients) clock.received_at
      → Step r (process_data env clock bytes a t r).0
  usb_data :
      (env : Env) (clock : Clock) (bytes : List ℕ) (r : Receiver)
      → SeenBy (lookup ("usb", 0) r.clients) clock.received_at
      → Step r (handle_usb_data env clock bytes r).0
  idle : (now : ℕ) (r : Receiver) → Step r (maintain_clients r now)
  new_code : (token : Option ℕ) (r s : Receiver) → set_pairing_token r token ≡ some s → Step r s
  disconnect : (r : Receiver) → Step r (disconnect_active_client r).0
  allow : (t : TransportKind) (r : Receiver) → Step r (allow_transport r t)
  measure : (now : ℕ) (r : Receiver) → Step r (metrics now r).0
  count_rejected : (now : ℕ) (r : Receiver) → Step r (rejected_pairing_cache_size now r).0

pub data Reach (r : Receiver) : Receiver → Type 0 where
  here : Reach r r
  next : {s t : Receiver} → Reach r s → Step s t → Reach r t

-- The constructor establishes the invariant.
new_receiver-IsConsistent :
    (config : Config) (token : Option ℕ) {r : Receiver}
    → new_receiver config token ≡ some r
    → IsConsistent r
unfolding new_receiver lookup
new_receiver-IsConsistent config token {r} e =
    let shape : r ≡ empty_receiver config token = ground arith in
    rw shape (record {
      sound = λ a. record {
        active_known = λ p. cc;
        active_free = λ p. cc;
        blocked_known = λ p. absurd (unfold member in ground arith);
        acked_known = λ p. cc;
        fresh_seen = tt;
      };
      distinct = tt;
      token = ground arith;
      retention = ground arith;
    })

Step-IsConsistent : {r s : Receiver} → Step r s → IsConsistent r → IsConsistent s
unfolding handle_usb_data
Step-IsConsistent (datagram env clock bytes a t r seen) h =
    process_data-IsConsistent env clock bytes a t r seen h
Step-IsConsistent (usb_data env clock bytes r seen) h =
    process_data-IsConsistent env clock bytes ("usb", 0) usb r seen h
Step-IsConsistent (idle now r) h = maintain_clients-IsConsistent r now h
Step-IsConsistent (new_code token r s e) h = set_pairing_token-IsConsistent r token e h
Step-IsConsistent (disconnect r) h = disconnect_active_client-IsConsistent r h
Step-IsConsistent (allow t r) h = allow_transport-IsConsistent r t h
Step-IsConsistent (measure now r) h = metrics-IsConsistent now r h
Step-IsConsistent (count_rejected now r) h = cache_size-IsConsistent now r h

run_keeps : {r s : Receiver} → IsConsistent r → Reach r s → IsConsistent s
run_keeps h here = h
run_keeps h (next run step) = Step-IsConsistent step (run_keeps h run)

-- In every state that a new receiver reaches, by datagrams from either transport, timeouts of the
-- socket, new codes, disconnections, re-admissions and queries of the counters in any order: the active client has a state
-- and is not blocked, every blocked or acknowledged address has a state, no client is fresher than
-- seen, addresses are distinct and the code is a 25-bit number.
pub Reach-IsConsistent :
    (config : Config) (token : Option ℕ) (r s : Receiver)
    → new_receiver config token ≡ some r
    → Reach r s
    → IsConsistent s
Reach-IsConsistent config token r s e run = run_keeps (new_receiver-IsConsistent config token e) run
