-- ===== src/Receiver/Unpaired.antt =====
-- A Wi-Fi packet without the configured code has no effect on who controls and on the controller.
use niw_pspto_pc.Base.{
  ℕ, ◌≡◌, ◌≢◌, refl, sym, ap, ◌∙◌, Bool, true, String, Option, some, List, [], ◌∷◌, string_eq,
  option_eq, nat_eq, option_beq_iff, Bool-cases, Option-cases, inl, inr, arith, if◌then◌else◌,
}
use mathlib.Core.Path.{subst}
use niw_pspto_pc.Base.Dict.{Dict}
use niw_pspto_pc.Protocol.{InputPacket, decode_packet, ok}
use niw_pspto_pc.Receiver.State.{
  Receiver, ClientState, Effect, call_packet, send_ack, call_stage, ReceiverStage, ReceiverEvent,
  datagram_received, valid_packet, Address, TransportKind, wifi, pairing_key_eq, Env, Clock,
}
use niw_pspto_pc.Receiver.Effects.{emit, callback_failed, invoke_callback, emit_stage}
use niw_pspto_pc.Receiver.Core.{Core, core-emit_stage}
use niw_pspto_pc.Receiver.Handle.{Handled, ignored, is_unpaired, reject_unpaired, handle_packet}
use niw_pspto_pc.Receiver.Process.{
  is_not_allowed, reject_host, process_packet, arrive, process_data,
}
use niw_pspto_pc.Receiver.Process.Data.{core-arrive, settled}

-- The effects that reach the controller or the PSP.
abbrev pub controls : List Effect → List Effect
controls [] = []
controls (call_packet s ∷ trace) = call_packet s ∷ controls trace
controls (send_ack t a ack ∷ trace) = send_ack t a ack ∷ controls trace
controls (_ ∷ trace) = controls trace

-- What decides who controls: the clients, the active one, the blocked ones, the code, the ACKs,
-- and the effects on the controller and the PSP.
pub record Control : Type 0 where
  pub clients : Dict Address ClientState
  pub active_client : Option Address
  pub blocked_clients : List Address
  pub pairing_token : Option ℕ
  pub last_ack_sent : Dict Address ℕ
  pub effects : List Effect

abbrev pub control : Receiver → Control
control r = record {
  clients = r.clients;
  active_client = r.active_client;
  blocked_clients = r.blocked_clients;
  pairing_token = r.pairing_token;
  last_ack_sent = r.last_ack_sent;
  effects = controls r.trace;
}

pub control-callback_failed :
    (name : String) (r : Receiver) → control (callback_failed name r) ≡ control r
unfolding callback_failed
control-callback_failed name r = ground arith

pub control-emit_stage :
    (env : Env) (stage : ReceiverStage) (a : Address) (t : TransportKind) (r : Receiver)
    → control (emit_stage env stage a t r) ≡ control r
unfolding emit_stage
control-emit_stage env stage a t r = elim (Option-cases env.on_stage) [
  | inl silent ↦ rw (silent, invoke_callback) refl
  | inr (callback, given) ↦ rw (given, invoke_callback) (called callback)
]
  where
    event : ReceiverEvent
    event = record { stage = stage; address = a; transport = t }

    called :
        (callback : ReceiverEvent → Bool)
        → control (
            if callback event
            then emit (call_stage event) r
            else callback_failed "on_stage" (emit (call_stage event) r))
          ≡ control r
    called callback = elim (Bool-cases (callback event)) [
      | inl fine ↦ rw fine refl
      | inr failed ↦ rw failed (control-callback_failed "on_stage" (emit (call_stage event) r))
    ]

pub control-arrive :
    (env : Env) (clock : Clock) (a : Address) (t : TransportKind) (r : Receiver)
    → control (arrive env clock a t r) ≡ control r
unfolding arrive
control-arrive env clock a t r = control-emit_stage env datagram_received a t _

control-reject_host :
    (clock : Clock) (a : Address) (r : Receiver) → control (reject_host clock a r) ≡ control r
unfolding reject_host
control-reject_host clock a r = ground arith

control-reject_unpaired :
    (r : Receiver) (packet : InputPacket) (a : Address) (now : ℕ)
    → control (reject_unpaired r packet a now) ≡ control r
unfolding reject_unpaired
control-reject_unpaired r packet a now = ground arith

-- A Wi-Fi packet whose token is not the configured one.
abbrev pub LacksCode : Receiver → InputPacket → Type 0
LacksCode r packet = (token : ℕ) → r.pairing_token ≡ some token → packet.session_token ≢ some token

lacks_code :
    (r : Receiver) (packet : InputPacket)
    → r.config.require_pairing ≡ true
    → LacksCode r packet
    → is_unpaired r packet wifi ≡ true
unfolding is_unpaired
lacks_code r packet required lacks = elim (Option-cases r.pairing_token) [
  | inl unset ↦ ground arith
  | inr (token, set) ↦
      ground (arith, lacks token set, option_beq_iff packet.session_token (some token))
]

handle_unpaired :
    (env : Env) (clock : Clock) (packet : InputPacket) (a : Address) (now : ℕ) (r : Receiver)
    → is_unpaired r packet wifi ≡ true
    → handle_packet env clock packet a wifi now r ≡ (reject_unpaired r packet a now, ignored)
unfolding handle_packet
handle_unpaired env clock packet a now r out = rw (out, handle_packet) refl

process_unpaired :
    (env : Env) (clock : Clock) (packet : InputPacket) (a : Address) (r : Receiver)
    → is_unpaired r packet wifi ≡ true
    → (control (process_packet env clock packet a wifi r).0 ≡ control r)
      × ((process_packet env clock packet a wifi r).1 ≡ ignored)
unfolding process_packet settled
process_unpaired env clock packet a r out =
    let valid = emit_stage env valid_packet a wifi r in
    let same = core-emit_stage env valid_packet a wifi r in
    let out' : is_unpaired valid packet wifi ≡ true =
      same_unpaired r valid packet (ap (λ (c : Core). c.config) same)
        (ap (λ (c : Core). c.pairing_token) same)
      ∙ out in
    let quiet =
      control-reject_unpaired valid packet a clock.received_at
      ∙ control-emit_stage env valid_packet a wifi r in
    subst
      (λ (p : Receiver × Handled).
        (control (settled env clock a wifi packet p).0 ≡ control r)
        × ((settled env clock a wifi packet p).1 ≡ ignored))
      (sym (handle_unpaired env clock packet a clock.received_at valid out')) (quiet, refl)
  where
    same_unpaired :
        (r s : Receiver) (packet : InputPacket)
        → s.config ≡ r.config
        → s.pairing_token ≡ r.pairing_token
        → is_unpaired s packet wifi ≡ is_unpaired r packet wifi
    same_unpaired r s packet p q = unfold is_unpaired in rw (p, q) refl

-- Where a code is required, a datagram that decodes to a Wi-Fi packet with another token or none is
-- ignored: no client, block, ACK time or code changes, control stays where it is, and neither the
-- controller callback nor an ACK follows, whatever the callbacks and the clocks do.
pub process_data_unpaired :
    (env : Env) (clock : Clock) (bytes : List ℕ) (packet : InputPacket) (a : Address) (r : Receiver)
    → r.config.require_pairing ≡ true
    → decode_packet bytes ≡ ok packet
    → LacksCode r packet
    → (control (process_data env clock bytes a wifi r).0 ≡ control r)
      × ((process_data env clock bytes a wifi r).1 ≡ ignored)
unfolding process_data
process_data_unpaired env clock bytes packet a r required decoded lacks =
    let arrived = arrive env clock a wifi r in
    let same = core-arrive env clock a wifi r in
    let quiet = control-arrive env clock a wifi r in
    let token = ap (λ (c : Core). c.pairing_token) same in
    let lacks' : LacksCode arrived packet = λ k e. lacks k (rw token at e) in
    let out =
      lacks_code arrived packet (ap (λ (c : Core). c.config.require_pairing) same ∙ required)
        lacks' in
    let (kept, outcome) = process_unpaired env clock packet a arrived out in
    elim (Bool-cases (is_not_allowed arrived a wifi)) [
      | inl shut ↦
          rw (decoded, process_data, shut) (control-reject_host clock a arrived ∙ quiet, refl)
      | inr fine ↦ rw (decoded, process_data, fine) (kept ∙ quiet, outcome)
    ]
