-- ===== src/Receiver/Effects.antt =====
-- Log lines, the display and the callbacks: `_log_rejection`, `_invoke_callback`, `_emit_stage`
-- and `_pairing_ack_is_allowed` of pc-server/pc_server/receiver.py.
use niw_pspto_pc.Base.{
  ℕ, ◌+◌, ◌-◌, Bool, true, false, ◌||◌, String, ◌∷◌, Option, none, some, bit_and, leb, ◌==◌,
  string_eq, if◌then◌else◌,
}
use niw_pspto_pc.Base.Dict.{lookup, insert}
use niw_pspto_pc.Receiver.Cache.{remember}
use niw_pspto_pc.Receiver.State.{
  Receiver, Effect, log_rejection, log_callback_failure, display_break_line, call_stage, LogKey,
  log_key_eq, ReceiverStage, ReceiverEvent, Address, TransportKind, answers, fails, Env,
}

abbrev pub emit : Effect → Receiver → Receiver
emit e r = record r { trace = e ∷ r.trace }

abbrev pub emit_if : Bool → Effect → Receiver → Receiver
emit_if b e r = if b then emit e r else r

-- `if self.display is not None: self.display.break_line()`
abbrev pub break_line : Receiver → Receiver
break_line r = emit_if r.config.has_display display_break_line r

-- `_log_rejection`, at the clock reading `now`
unfoldable pub log_rejected : LogKey → ℕ → Receiver → Receiver
log_rejected key now r =
    let (logs, should_log) = remember r.rejection_logs key now in
    emit_if should_log (log_rejection key) (record r { rejection_logs = logs })

abbrev or_zero : Option ℕ → ℕ
or_zero none = 0
or_zero (some n) = n

-- The handler of `_invoke_callback` and `_pairing_ack_is_allowed`: failures are counted, and the
-- first three and every power of two are logged.
unfoldable pub callback_failed : String → Receiver → Receiver
callback_failed name r =
    let count = or_zero (lookup name r.callback_error_counts) + 1 in
    emit_if (leb count 3 || bit_and count (count - 1) == 0) (log_callback_failure name count)
      (record r {
        callback_errors = r.callback_errors + 1;
        callback_error_counts = insert name count r.callback_error_counts;
      })

-- `_invoke_callback`: `effect` is the call, and the callback's answer is in `callback`.
unfoldable pub invoke_callback {ℓ} :
    {A : Type ℓ} → String → Option (A → Bool) → A → Effect → Receiver → Receiver
unfolding callback_failed
invoke_callback name none v effect r = r
invoke_callback name (some callback) v effect r =
    if callback v then emit effect r else callback_failed name (emit effect r)

-- `_emit_stage`
unfoldable pub emit_stage : Env → ReceiverStage → Address → TransportKind → Receiver → Receiver
unfolding invoke_callback
emit_stage env stage address transport r =
    let event : ReceiverEvent = record {
      stage = stage;
      address = address;
      transport = transport;
    } in
    invoke_callback "on_stage" env.on_stage event (call_stage event) r

-- `_pairing_ack_is_allowed`
unfoldable pub pairing_ack_is_allowed : Env → Receiver → Receiver × Bool
unfolding callback_failed
pairing_ack_is_allowed env r = elim env.pairing_ack_allowed [
  | none ↦ (r, true)
  | some (answers b) ↦ (r, b)
  | some fails ↦ (callback_failed "pairing_ack_allowed" r, false)
]
