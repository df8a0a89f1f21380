-- ===== src/Receiver/Calls.antt =====
-- The calls of `on_packet` of pc-server/pc_server/receiver.py: which snapshots reach the controller.
use niw_pspto_pc.Base.{
  ℕ, ◌+◌, ◌≡◌, refl, sym, ap, ◌∙◌, Bool, true, false, ◌&&◌, String, List, [], ◌∷◌, Option, none,
  some, leb, option_eq, string_eq, nat_eq, Bool-cases, Option-cases, inl, inr, arith, if◌then◌else◌,
}
use niw_pspto_pc.Base.Dict.{lookup, insert}
use niw_pspto_pc.Protocol.{InputPacket}
use niw_pspto_pc.Receiver.Sequence.{
  SequenceEvent, first, in_order, gap, duplicate, out_of_order, observe,
}
use niw_pspto_pc.Receiver.State.{
  Receiver, ReceiverSnapshot, ClientState, Effect, log_selected, log_switched, log_timed_out,
  log_inactive, log_waiting_for_pairing, log_not_allowed, log_rejection, log_callback_failure,
  display_break_line, display_render, call_stage, call_diagnostic, call_packet, send_ack,
  ReceiverStage, Address, address_eq, TransportKind, LogKey, Env, Clock,
}
use niw_pspto_pc.Receiver.Effects.{
  emit, emit_if, break_line, log_rejected, invoke_callback, callback_failed, emit_stage,
}
use niw_pspto_pc.Receiver.Clients.{
  drop_client, drop_clients, addresses_where, release_timed_out, drop_expired, maintain_clients,
}
use niw_pspto_pc.Receiver.Handle.{
  Handled, ignored, handled, raised, Choice, unchanged, selected, switched_from, apply_choice,
  hand_over, choose_active, renew, or_new_client, report_sequence, publish, track, admit,
  handle_packet, is_unpaired,
}
use niw_pspto_pc.Receiver.Process.{arrive}
use niw_pspto_pc.Receiver.Unpaired.{
  controls, Control, control, control-emit_stage, control-callback_failed, control-arrive,
}

-- The snapshots that were given to `on_packet`, the latest first.
abbrev pub packet_calls : List Effect → List ReceiverSnapshot
packet_calls [] = []
packet_calls (call_packet s ∷ trace) = s ∷ packet_calls trace
packet_calls (_ ∷ trace) = packet_calls trace

-- Whether the receiver was given a callback.
abbrev pub is_given {ℓ} : {A : Type ℓ} → Option A → Bool
is_given none = false
is_given (some callback) = true

packet_calls-controls : (trace : List Effect) → packet_calls (controls trace) ≡ packet_calls trace
packet_calls-controls [] = refl
packet_calls-controls (call_packet s ∷ trace) =
    ap (λ (rest : List ReceiverSnapshot). s ∷ rest) (packet_calls-controls trace)
packet_calls-controls (log_selected a ∷ trace) = packet_calls-controls trace
packet_calls-controls (log_switched old t ∷ trace) = packet_calls-controls trace
packet_calls-controls (log_timed_out ∷ trace) = packet_calls-controls trace
packet_calls-controls (log_inactive a ∷ trace) = packet_calls-controls trace
packet_calls-controls (log_waiting_for_pairing a ∷ trace) = packet_calls-controls trace
packet_calls-controls (log_not_allowed a ∷ trace) = packet_calls-controls trace
packet_calls-controls (log_rejection key ∷ trace) = packet_calls-controls trace
packet_calls-controls (log_callback_failure name n ∷ trace) = packet_calls-controls trace
packet_calls-controls (display_break_line ∷ trace) = packet_calls-controls trace
packet_calls-controls (display_render s ∷ trace) = packet_calls-controls trace
packet_calls-controls (call_stage event ∷ trace) = packet_calls-controls trace
packet_calls-controls (call_diagnostic s ∷ trace) = packet_calls-controls trace
packet_calls-controls (send_ack t a ack ∷ trace) = packet_calls-controls trace

abbrev pub called : Receiver → List ReceiverSnapshot
called r = packet_calls r.trace

called-control : (r s : Receiver) → control s ≡ control r → called s ≡ called r
called-control r s same =
    sym (packet_calls-controls s.trace)
    ∙ ap (λ (c : Control). packet_calls c.effects) same
    ∙ packet_calls-controls r.trace

pub called-emit_stage :
    (env : Env) (stage : ReceiverStage) (a : Address) (t : TransportKind) (r : Receiver)
    → called (emit_stage env stage a t r) ≡ called r
called-emit_stage env stage a t r =
    called-control r (emit_stage env stage a t r) (control-emit_stage env stage a t r)

pub called-arrive :
    (env : Env) (clock : Clock) (a : Address) (t : TransportKind) (r : Receiver)
    → called (arrive env clock a t r) ≡ called r
called-arrive env clock a t r =
    called-control r (arrive env clock a t r) (control-arrive env clock a t r)

pub called-callback_failed :
    (name : String) (r : Receiver) → called (callback_failed name r) ≡ called r
called-callback_failed name r =
    called-control r (callback_failed name r) (control-callback_failed name r)

called-drop_clients : (gone : List Address) (r : Receiver) → called (drop_clients gone r) ≡ called r
unfolding drop_clients drop_client
called-drop_clients [] r = refl
called-drop_clients (a ∷ gone) r = called-drop_clients gone (drop_client r a)

called-release_timed_out : (r : Receiver) (now : ℕ) → called (release_timed_out r now) ≡ called r
unfolding release_timed_out
called-release_timed_out r now = ground arith

called-maintain_clients : (r : Receiver) (now : ℕ) → called (maintain_clients r now) ≡ called r
unfolding maintain_clients drop_expired
called-maintain_clients r now =
    let released = release_timed_out r now in
    let gone =
      addresses_where (λ state. leb (state.last_seen + released.config.client_retention) now)
        released.clients in
    called-drop_clients gone released ∙ called-release_timed_out r now

called-apply_choice :
    (choice : Choice) (a : Address) (t : TransportKind) (r : Receiver)
    → called (apply_choice choice a t r) ≡ called r
unfolding apply_choice
called-apply_choice unchanged a t r = refl
called-apply_choice selected a t r = refl
called-apply_choice (switched_from old) a t r = refl

called-track :
    (clock : Clock) (packet : InputPacket) (a : Address) (t : TransportKind) (now : ℕ)
    (state : ClientState) (r : Receiver)
    → called (track clock packet a t now state r).0 ≡ called r
unfolding track
called-track clock packet a t now state r =
    elim (Option-cases (observe state.sequences packet.sequence)) [
      | inl bad ↦ rw (bad, track) refl
      | inr ((tracker, result), e) ↦ rw (e, track) (ground arith)
    ]

called-admit :
    (clock : Clock) (packet : InputPacket) (a : Address) (t : TransportKind) (now : ℕ)
    (r : Receiver)
    → called (admit clock packet a t now r).0 ≡ called r
unfolding admit
called-admit clock packet a t now r =
    let kept = maintain_clients r now in
    let state =
      renew kept.config.active_client_timeout packet t now
        (or_new_client (lookup a kept.clients)) in
    let present : Receiver = record kept { clients = insert a state kept.clients } in
    let choice = choose_active present packet a t now in
    called-track clock packet a t now (hand_over choice state) (apply_choice choice a t present)
    ∙ called-apply_choice choice a t present
    ∙ called-maintain_clients r now

called-log_rejected :
    (key : LogKey) (now : ℕ) (r : Receiver)
    → called (log_rejected key now (break_line r)) ≡ called r
unfolding log_rejected
called-log_rejected key now r = ground arith

called-report_sequence :
    (event : SequenceEvent) (a : Address) (now : ℕ) (r : Receiver)
    → called (report_sequence event a now r) ≡ called r
unfolding report_sequence
called-report_sequence first a now r = refl
called-report_sequence in_order a now r = refl
called-report_sequence gap a now r = called-log_rejected _ now r
called-report_sequence duplicate a now r = called-log_rejected _ now r
called-report_sequence out_of_order a now r = called-log_rejected _ now r

-- A callback is called at most once, and its failure calls nothing.
called-invoke_callback :
    (name : String) (callback : Option (ReceiverSnapshot → Bool)) (s : ReceiverSnapshot)
    (e : Effect) (r : Receiver)
    → called (invoke_callback name callback s e r)
      ≡ (if is_given callback then called (emit e r) else called r)
unfolding invoke_callback
called-invoke_callback name none s e r = refl
called-invoke_callback name (some callback) s e r = elim (Bool-cases (callback s)) [
  | inl fine ↦ rw fine refl
  | inr failed ↦ rw failed (called-callback_failed name (emit e r))
]

-- `on_packet`, where it is given, is called with the snapshot of a state update, and with no other.
called-publish :
    (env : Env) (clock : Clock) (s : ReceiverSnapshot) (r : Receiver)
    → called (publish env clock s r)
      ≡ (if is_given env.on_packet && s.is_state_update then s ∷ called r else called r)
unfolding publish
called-publish env clock s r =
    let reported = report_sequence s.sequence_result.event s.address clock.logged_at r in
    let shown =
      emit_if (reported.config.has_display && s.is_active_client) (display_render s) reported in
    let diagnosed = invoke_callback "on_diagnostic" env.on_diagnostic s (call_diagnostic s) shown in
    let quiet : called diagnosed ≡ called r =
      called-invoke_callback "on_diagnostic" env.on_diagnostic s (call_diagnostic s) shown
      ∙ both (is_given env.on_diagnostic) (called shown)
      ∙ shown_quiet (reported.config.has_display && s.is_active_client) reported
      ∙ called-report_sequence s.sequence_result.event s.address clock.logged_at r in
    let told = called-invoke_callback "on_packet" env.on_packet s (call_packet s) diagnosed in
    ground (arith, quiet, told)
  where
    both : (b : Bool) (calls : List ReceiverSnapshot) → (if b then calls else calls) ≡ calls
    both true calls = refl
    both false calls = refl

    shown_quiet : (b : Bool) (u : Receiver) → called (emit_if b (display_render s) u) ≡ called u
    shown_quiet true u = refl
    shown_quiet false u = refl

-- A packet that is not ignored, once it is published.
abbrev published : Env → Clock → Receiver × Handled → Receiver × Handled
published env clock p = elim p.1 [
  | handled snapshot ↦ (publish env clock snapshot p.0, handled snapshot)
  | ignored ↦ (p.0, ignored)
  | raised ↦ (p.0, raised)
]

called-published :
    (env : Env) (clock : Clock) (r : Receiver) (p : Receiver × Handled) (s : ReceiverSnapshot)
    → called p.0 ≡ called r
    → (published env clock p).1 ≡ handled s
    → called (published env clock p).0
      ≡ (if is_given env.on_packet && s.is_state_update then s ∷ called r else called r)
called-published env clock r (u, ignored) s same outcome = cc
called-published env clock r (u, raised) s same outcome = cc
called-published env clock r (u, handled v) s same outcome =
    let exact : v ≡ s = cc in
    rw (← exact) (
      called-publish env clock v u
      ∙ ap
          (λ (calls : List ReceiverSnapshot).
            if is_given env.on_packet && v.is_state_update then v ∷ calls else calls)
          same)

-- A packet that is handled reaches the controller if it is a state update, once, and no other does.
pub called-handle_packet :
    (env : Env) (clock : Clock) (packet : InputPacket) (a : Address) (t : TransportKind) (now : ℕ)
    (r : Receiver) (s : ReceiverSnapshot)
    → is_unpaired r packet t ≡ false
    → (handle_packet env clock packet a t now r).1 ≡ handled s
    → called (handle_packet env clock packet a t now r).0
      ≡ (if is_given env.on_packet && s.is_state_update then s ∷ called r else called r)
unfolding handle_packet
called-handle_packet env clock packet a t now r s paired outcome =
    let shape : handle_packet env clock packet a t now r
        ≡ published env clock (admit clock packet a t now r) =
      rw (paired, handle_packet) refl in
    ap (λ (p : Receiver × Handled). called p.0) shape
    ∙ called-published env clock r (admit clock packet a t now r) s
        (called-admit clock packet a t now r)
        (sym (ap (λ (p : Receiver × Handled). p.1) shape) ∙ outcome)
