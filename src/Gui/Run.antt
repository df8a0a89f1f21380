-- ===== src/Gui/Run.antt =====
-- The event loop of the window: what the user, the threads and the timers may do next.
use niw_pspto_pc.Base.{ℕ, ◌≡◌, String, Bool, true, List, [], ◌∷◌, ◌++◌}
use niw_pspto_pc.Protocol.Pairing.{Unicode}
use niw_pspto_pc.Receiver.State.{TransportKind}
use niw_pspto_pc.Receiver.Metrics.{ReceiverMetrics}
use niw_pspto_pc.Gui as Gui
use niw_pspto_pc.Gui.{
  App, Timer, poll_messages, destroy_root, set_code, live_diagnostics, system_diagnostics, Message,
}
use niw_pspto_pc.Gui.Actions.{
  set_code_text, select_transport, disconnect_current, validate_code_entry,
}
use niw_pspto_pc.Gui.Pairing.{authorize, clear_pairing}
use niw_pspto_pc.Gui.Lifecycle.{
  refresh_system_diagnostics, refresh_live_diagnostics, start_receiver, Setting, apply_settings,
  retry_gamepad, close,
}
use niw_pspto_pc.Gui.Messages.{poll}

-- What the other objects answer while the loop runs one callback.
pub record Answers : Type 0 where
  pub as_text : List ℕ → String
  pub ready : ℕ → Bool
  pub metrics : ReceiverMetrics

-- A timer's callback.
unfoldable pub fire : Answers → Timer → App → App
unfolding poll start_receiver refresh_live_diagnostics refresh_system_diagnostics
fire env poll_messages a = poll env.as_text env.ready a
fire env Gui.start_receiver a = start_receiver a
fire env destroy_root a = a
fire env (set_code text) a = set_code_text text a
fire env live_diagnostics a = refresh_live_diagnostics env.metrics a
fire env system_diagnostics a = refresh_system_diagnostics a

abbrev pub post : Message → App → App
post m a = record a { messages = a.messages ++ m ∷ [] }

pub data Step : App → App → Type 0 where
  selects : (t : TransportKind) (a : App) → Step a (select_transport t a)
  disconnects : (ready : Bool) (a : App) → Step a (disconnect_current ready a)
  types :
      (u : Unicode) (text : List ℕ) (a : App)
      → (validate_code_entry u text a).1 ≡ true
      → Step a (set_code_text text (validate_code_entry u text a).0)
  authorizes : (u : Unicode) (ready : Bool) (a : App) → Step a (authorize u ready a)
  clears : (ready : Bool) (a : App) → Step a (clear_pairing ready a)
  applies :
      (env : Setting) (host port allowed : List ℕ) (a : App)
      → Step a (apply_settings env host port allowed a).0
  retries : (a : App) → Step a (retry_gamepad a)
  closes : (a : App) → Step a (close a)
  posts : (m : Message) (a : App) → Step a (post m a)
  fires :
      (env : Answers) (timer : Timer) (before behind : List Timer) (a : App)
      → a.pending ≡ before ++ timer ∷ behind
      → Step a (fire env timer (record a { pending = before ++ behind }))

pub data Reach (a : App) : App → Type 0 where
  here : Reach a a
  next : {b c : App} → Reach a b → Step b c → Reach a c
