-- ===== src/Receiver/Core.antt =====
-- What logging, the display and the callbacks leave alone: every field that the receiver decides
-- by.
use niw_pspto_pc.Base.{
  ℕ, ◌≡◌, refl, ◌∙◌, Bool, true, false, String, Option, none, some, List, Bool-cases, inl, inr,
  if◌then◌else◌, ◌&&◌, ◌⊎◌,
}
use niw_pspto_pc.Base.Dict.{Dict}
use niw_pspto_pc.Protocol.{InputPacket}
use niw_pspto_pc.Receiver.Sequence.{SequenceEvent, first, in_order, gap, duplicate, out_of_order}
use niw_pspto_pc.Receiver.Cache.{remember}
use niw_pspto_pc.Receiver.State.{
  Receiver, ClientState, Config, ReceiverSnapshot, Effect, log_rejection, log_waiting_for_pairing,
  display_break_line, display_render, call_diagnostic, call_packet, pairing_key_eq, LogKey,
  log_key_eq, ReceiverStage, Address, TransportKind, Answer, answers, fails, Env, Clock,
}
use niw_pspto_pc.Receiver.Effects.{
  emit, emit_if, break_line, log_rejected, callback_failed, invoke_callback, emit_stage,
  pairing_ack_is_allowed,
}
use niw_pspto_pc.Receiver.Handle.{reject_unpaired, report_sequence, publish}

pub record Core : Type 0 where
  pub config : Config
  pub pairing_token : Option ℕ
  pub clients : Dict Address ClientState
  pub active_client : Option Address
  pub blocked_clients : List Address
  pub last_ack_sent : Dict Address ℕ
  pub datagrams_received : ℕ
  pub valid_packets : ℕ
  pub rejected_datagrams : ℕ

abbrev pub core : Receiver → Core
core r = record {
  config = r.config;
  pairing_token = r.pairing_token;
  clients = r.clients;
  active_client = r.active_client;
  blocked_clients = r.blocked_clients;
  last_ack_sent = r.last_ack_sent;
  datagrams_received = r.datagrams_received;
  valid_packets = r.valid_packets;
  rejected_datagrams = r.rejected_datagrams;
}

core-if :
    (b : Bool) (x y r : Receiver)
    → core x ≡ core r
    → core y ≡ core r
    → core (if b then x else y) ≡ core r
core-if true x y r p q = p
core-if false x y r p q = q

pub core-emit_if : (b : Bool) (e : Effect) (r : Receiver) → core (emit_if b e r) ≡ core r
core-emit_if true e r = refl
core-emit_if false e r = refl

pub core-break_line : (r : Receiver) → core (break_line r) ≡ core r
core-break_line r = core-emit_if r.config.has_display display_break_line r

pub core-log_rejected :
    (key : LogKey) (now : ℕ) (r : Receiver) → core (log_rejected key now r) ≡ core r
unfolding log_rejected
core-log_rejected key now r =
    let (logs, b) = remember r.rejection_logs key now in core-emit_if b (log_rejection key) _

pub core-callback_failed : (name : String) (r : Receiver) → core (callback_failed name r) ≡ core r
unfolding callback_failed
core-callback_failed name r = core-emit_if _ _ _

pub core-invoke_callback {ℓ} :
    {A : Type ℓ} (name : String) (callback : Option (A → Bool)) (v : A) (e : Effect) (r : Receiver)
    → core (invoke_callback name callback v e r) ≡ core r
unfolding invoke_callback
core-invoke_callback name none v e r = refl
core-invoke_callback name (some callback) v e r = elim (Bool-cases (callback v)) [
  | inl fine ↦ rw fine refl
  | inr failed ↦ rw failed (core-callback_failed name (emit e r))
]

pub core-emit_stage :
    (env : Env) (stage : ReceiverStage) (a : Address) (t : TransportKind) (r : Receiver)
    → core (emit_stage env stage a t r) ≡ core r
unfolding emit_stage
core-emit_stage env stage a t r = core-invoke_callback "on_stage" env.on_stage _ _ r

answer_cases :
    (o : Option Answer) → (o ≡ none) ⊎ (((b : Bool) × (o ≡ some (answers b))) ⊎ (o ≡ some fails))
answer_cases none = inl refl
answer_cases (some (answers b)) = inr (inl (b, refl))
answer_cases (some fails) = inr (inr refl)

pub core-pairing_ack_is_allowed :
    (env : Env) (r : Receiver) → core (pairing_ack_is_allowed env r).0 ≡ core r
unfolding pairing_ack_is_allowed
core-pairing_ack_is_allowed env r = elim (answer_cases env.pairing_ack_allowed) [
  | inl e ↦ rw e refl
  | inr (inl (b, e)) ↦ rw e refl
  | inr (inr e) ↦ rw e (core-callback_failed "pairing_ack_allowed" r)
]

core-report_sequence :
    (event : SequenceEvent) (a : Address) (now : ℕ) (r : Receiver)
    → core (report_sequence event a now r) ≡ core r
unfolding report_sequence
core-report_sequence first a now r = refl
core-report_sequence in_order a now r = refl
core-report_sequence gap a now r = core-log_rejected _ now (break_line r) ∙ core-break_line r
core-report_sequence duplicate a now r = core-log_rejected _ now (break_line r) ∙ core-break_line r
core-report_sequence out_of_order a now r =
    core-log_rejected _ now (break_line r) ∙ core-break_line r

pub core-publish :
    (env : Env) (clock : Clock) (s : ReceiverSnapshot) (r : Receiver)
    → core (publish env clock s r) ≡ core r
unfolding publish
core-publish env clock s r =
    let reported = report_sequence s.sequence_result.event s.address clock.logged_at r in
    let shown =
      emit_if (reported.config.has_display && s.is_active_client) (display_render s) reported in
    let diagnosed = invoke_callback "on_diagnostic" env.on_diagnostic s (call_diagnostic s) shown in
    let quiet : core diagnosed ≡ core r =
      core-invoke_callback "on_diagnostic" env.on_diagnostic s (call_diagnostic s) shown
      ∙ core-emit_if (reported.config.has_display && s.is_active_client) (display_render s) reported
      ∙ core-report_sequence s.sequence_result.event s.address clock.logged_at r in
    core-if s.is_state_update _ _ r
      (core-invoke_callback "on_packet" env.on_packet s (call_packet s) diagnosed ∙ quiet) quiet

pub core-reject_unpaired :
    (r : Receiver) (packet : InputPacket) (a : Address) (now : ℕ)
    → core (reject_unpaired r packet a now) ≡ core r
unfolding reject_unpaired
core-reject_unpaired r packet a now =
    let (cache, b) = remember r.rejected_pairings (a.0, packet.session_token) now in
    core-emit_if b (log_waiting_for_pairing a) _
