-- ===== src/Gui/Sound.antt =====
-- What the user does keeps the invariant of the window.
pub mod Messages
use niw_pspto_pc.Base.{
  ℕ, suc, ◌+◌, ◌<◌, ◌≡◌, refl, sym, ap, ◌∙◌, Bool, true, false, not, ◌&&◌, ◌||◌, String, List, [],
  ◌∷◌, ◌++◌, Option, none, some, equals, nat_eq, option_eq, Bool-cases, Option-cases, inl, inr,
  arith, if◌then◌else◌,
}
use mathlib.Core.Path.{subst}
use niw_pspto_pc.Receiver.State.{TransportKind, wifi, usb, same_transport}
use niw_pspto_pc.Receiver.Metrics.{ReceiverMetrics}
use niw_pspto_pc.Settings.{GuiSettings, Validated, valid, refused, validate_bind_settings}
use niw_pspto_pc.Settings.File.{Disk, save_settings}
use niw_pspto_pc.Gui.{
  App, disconnect, call_receiver, call_service, set_pairing_token, disconnect_active_client,
  allow_transport, destroy_root, live_diagnostics,
}
use niw_pspto_pc.Gui.Actions.{
  show_selection, choose_transport, select_transport, disconnect_transport, disconnect_current,
  set_code_text, validate_code_entry, end_client, forget_token,
}
use niw_pspto_pc.Protocol.Pairing.{
  Unicode, Pairing, PairingError, value, raises, format_pairing_token, parse_pairing_token,
}
use niw_pspto_pc.Gui.Pairing.{is_usb, enter_code, take_token, authorize, clear_code, clear_pairing}
use niw_pspto_pc.Gui.Lifecycle.{
  refresh_system_diagnostics, refresh_live_diagnostics, launch, start_receiver, restart,
  close_window, take_settings, use_settings, use_saved, save_and_use, measure, Setting,
  apply_settings, retry_gamepad, close,
}
use niw_pspto_pc.Gui.Facts.{
  Facts, facts, facts-unless, facts-if, facts_option, facts_kind, under, branch,
}
use niw_pspto_pc.Gui.Invariant.{
  IsSound, lose-IsSound, forget-IsSound, launch-IsSound, restart-IsSound, close-IsSound,
  after-IsSound,
}

module _ (k : ℕ) (shut : Option ℕ) where
  facts-show_selection : (t : TransportKind) (a : App) → facts (show_selection t a) ≡ facts a
  unfolding show_selection
  facts-show_selection t a =
      facts_option a.connected_transport _ _ (facts_kind t _ _ refl refl)
        (λ c. facts-if (same_transport c t) _ _ refl refl)

  pub facts-select_transport :
      (t : TransportKind) (a : App) → facts (select_transport t a) ≡ facts a
  unfolding select_transport
  facts-select_transport t a = facts-show_selection t (choose_transport t a)

  facts-end_client : (t : TransportKind) (a : App) → facts (end_client t a) ≡ facts a
  facts-end_client wifi a = refl
  facts-end_client usb a = refl

  facts-forget_token : (t : TransportKind) (a : App) → facts (forget_token t a) ≡ facts a
  facts-forget_token wifi a = refl
  facts-forget_token usb a = refl

  -- What is left of a window that lost its connection.
  abbrev lost : Facts → Facts
  lost f = record f { paired_address = none; connected_transport = none }

  facts-disconnect :
      (ready : Bool) (t : TransportKind) (a : App)
      → facts (disconnect_transport t ready a) ≡ lost (facts a)
  unfolding disconnect_transport
  facts-disconnect ready t a =
      ap lost (facts-forget_token t (end_client t a) ∙ facts-end_client t a)

  -- A window whose deciding fields keep the invariant.
  abbrev pub Sound : App → Type 0
  Sound a = IsSound k shut (facts a)

  pub disconnect_current-IsSound :
      (ready : Bool) (a : App) → Sound a → Sound (disconnect_current ready a)
  unfolding disconnect_current
  disconnect_current-IsSound ready a s =
      under Sound a.connected_transport (λ t. disconnect_transport t ready a) a s
        (λ t.
          subst (IsSound k shut) (sym (facts-disconnect ready t a))
            (lose-IsSound k shut (facts a) s))

  enter_code-Sound :
      (usb_active ready : Bool) (token : ℕ) (text : List ℕ) (a : App)
      → Sound a
      → Sound (enter_code usb_active ready token text a)
  unfolding enter_code
  enter_code-Sound true ready token text a s = s
  enter_code-Sound false ready token text a s = forget-IsSound k shut (facts a) s

  clear_code-Sound :
      (usb_active ready : Bool) (a : App) → Sound a → Sound (clear_code usb_active ready a)
  unfolding clear_code
  clear_code-Sound true ready a s = s
  clear_code-Sound false ready a s = forget-IsSound k shut (facts a) s

  -- What holds for both outcomes of a code.
  under_pairing :
      (P : App → Type 0) {A : Type 0} (o : Pairing A) (fine : A → App) (bad : PairingError → App)
      → ((v : A) → P (fine v))
      → ((e : PairingError) → P (bad e))
      → P (elim o [ raises e ↦ bad e | value v ↦ fine v ])
  under_pairing P (raises e) fine bad h k = k e
  under_pairing P (value v) fine bad h k = h v

  pub authorize-Sound :
      (u : Unicode) (ready : Bool) (a : App) → Sound a → Sound (authorize u ready a)
  unfolding authorize
  authorize-Sound u ready a s =
      under_pairing Sound (parse_pairing_token u a.screen.code) _ _
        (λ token.
          under_pairing Sound (format_pairing_token token) _ _
            (λ text.
              enter_code-Sound (is_usb a.connected_transport) ready token text (take_token token a)
                s)
            (λ e. s))
        (λ e. s)

  pub clear_pairing-Sound : (ready : Bool) (a : App) → Sound a → Sound (clear_pairing ready a)
  unfolding clear_pairing
  clear_pairing-Sound ready a s = go a.connected_transport
    where
      go :
          (o : Option TransportKind)
          → Sound (elim o [
            | some wifi ↦ disconnect_current ready a
            | _ ↦ clear_code (is_usb a.connected_transport) ready a
          ])
      go none = clear_code-Sound (is_usb a.connected_transport) ready a s
      go (some usb) = clear_code-Sound (is_usb a.connected_transport) ready a s
      go (some wifi) = disconnect_current-IsSound ready a s

  launch-Sound : (a : App) → a.closing ≡ false → Sound a → Sound (launch a)
  unfolding launch
  launch-Sound a open' s = launch-IsSound k shut (facts a) open' s

  pub start_receiver-Sound : (a : App) → Sound a → Sound (start_receiver a)
  unfolding start_receiver
  start_receiver-Sound a s =
      branch Sound (a.running || a.closing) a (launch a) (λ e. s)
        (λ e. launch-Sound a (ground (arith, e)) s)

  restart-Sound : (a : App) → Sound a → Sound (restart a)
  unfolding restart
  restart-Sound a s = under Sound a.receiver _ (start_receiver a) (start_receiver-Sound a s) (λ id.
      branch Sound a.running _ (start_receiver a) (λ e. restart-IsSound k shut (facts a) e s)
        (λ e. start_receiver-Sound a s))

  facts-close_window : (window : Bool) (a : App) → facts (close_window window a) ≡ facts a
  facts-close_window true a = refl
  facts-close_window false a = refl

  use_settings-Sound :
      (window : Bool) (settings : GuiSettings) (a : App)
      → Sound a
      → Sound (use_settings window settings a)
  unfolding use_settings
  use_settings-Sound window settings a s = restart-Sound (take_settings window settings a) (
      subst (IsSound k shut) (sym (facts-close_window window (record a { settings = settings }))) s)

  use_saved-Sound :
      (env : Setting) (settings : GuiSettings) (saved : Disk × Bool) (a : App)
      → Sound a
      → Sound (use_saved env settings saved a).0
  unfolding use_saved
  use_saved-Sound env settings (disk, false) a s = s
  use_saved-Sound env settings (disk, true) a s =
      use_settings-Sound env.window settings (record a { disk = disk }) s

  save_and_use-Sound :
      (env : Setting) (v : Validated GuiSettings) (a : App)
      → Sound a
      → Sound (save_and_use env v a).0
  unfolding save_and_use
  save_and_use-Sound env (refused e) a s = s
  save_and_use-Sound env (valid settings) a s =
      use_saved-Sound env settings (save_settings env.files settings a.disk) a s

  pub apply_settings-Sound :
      (env : Setting) (host port allowed : List ℕ) (a : App)
      → Sound a
      → Sound (apply_settings env host port allowed a).0
  unfolding apply_settings
  apply_settings-Sound env host port allowed a s =
      save_and_use-Sound env (validate_bind_settings env.unicode env.digit host port allowed) a s

  pub retry_gamepad-Sound : (a : App) → Sound a → Sound (retry_gamepad a)
  unfolding retry_gamepad
  retry_gamepad-Sound a s = under Sound a.controller_service _ _ s (λ id. s)

  pub close-Sound : (a : App) → Sound a → Sound (close a)
  unfolding close
  close-Sound a s =
      after-IsSound k shut destroy_root
        (record (facts a) { closing = true; restart_pending = false }) refl
        (close-IsSound k shut (facts a) s)

  facts-measure : (metrics : ReceiverMetrics) (a : App) → facts (measure metrics a) ≡ facts a
  unfolding measure
  facts-measure metrics a = facts_option a.receiver _ a refl (λ id. refl)

  pub live-Sound :
      (metrics : ReceiverMetrics) (a : App) → Sound a → Sound (refresh_live_diagnostics metrics a)
  unfolding refresh_live_diagnostics
  live-Sound metrics a s =
      branch Sound a.closing a _ (λ e. s)
        (λ e.
          after-IsSound k shut live_diagnostics (facts (measure metrics a)) refl
            (subst (IsSound k shut) (sym (facts-measure metrics a)) s))
