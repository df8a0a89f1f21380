-- ===== src/Gui/Restart.antt =====
-- New settings reach a new receiver.
use niw_pspto_pc.Base.{
  ℕ, ◌+◌, ◌≡◌, refl, ap, ◌∙◌, Bool, true, false, not, ◌&&◌, List, ◌∷◌, none, some, equals, nat_eq,
  option_eq, arith,
}
use niw_pspto_pc.Settings.{GuiSettings, valid, validate_bind_settings}
use niw_pspto_pc.Settings.File.{Disk, save_settings}
use niw_pspto_pc.Gui as Gui
use niw_pspto_pc.Gui.{
  App, Call, create_service, create_receiver, start_worker, on_receiver, on_service, scan_network,
  destroy_window, request_stop, ensure_backend, stop,
}
use niw_pspto_pc.Gui.Actions.{refresh_doctor}
use niw_pspto_pc.Gui.Lifecycle.{
  receiver_args, launch, start_receiver, restart, use_settings, use_saved, save_and_use, Setting,
  apply_settings, take_settings, refresh_system_diagnostics,
}
use niw_pspto_pc.Gui.Facts.{facts}
use niw_pspto_pc.Gui.Invariant.{IsSound}
use niw_pspto_pc.Gui.Messages.{end_receiver, apply_stopped}

-- A window that has taken over new settings while receiver `id` runs.
record IsRestarting (settings : GuiSettings) (id : ℕ) (a b : App) : Type 0 where
  settings_kept : b.settings ≡ settings
  receiver_kept : b.receiver ≡ some id
  waits : b.restart_pending ≡ true
  open_still : b.closing ≡ false
  created_kept : b.created ≡ a.created
  token_kept : b.active_token ≡ a.active_token
  pending_kept : b.pending ≡ a.pending
  stops : (calls : List Call) × (b.trace ≡ on_service id stop ∷ on_receiver id request_stop ∷ calls)

restart-IsRestarting :
    (settings : GuiSettings) (id : ℕ) (a b : App)
    → b.receiver ≡ some id
    → b.controller_service ≡ some id
    → b.running ≡ true
    → b.closing ≡ false
    → b.settings ≡ settings
    → b.created ≡ a.created
    → b.active_token ≡ a.active_token
    → b.pending ≡ a.pending
    → IsRestarting settings id a (restart b)
unfolding restart
restart-IsRestarting settings id a b e1 e2 e3 e4 e5 e6 e7 e8 =
    rw (e1, restart, e3)
      (record {
        settings_kept = e5;
        receiver_kept = e1;
        waits = refl;
        open_still = e4;
        created_kept = e6;
        token_kept = e7;
        pending_kept = e8;
        stops = (b.trace, rw (e2, e1) refl);
      })

-- A receiver of its own number runs with the settings, behind the calls that stop receiver `id`.
pub record IsRestarted (settings : GuiSettings) (id : ℕ) (a c : App) : Type 0 where
  pub runs : c.running ≡ true
  pub receiver_new : c.receiver ≡ some a.created
  pub service_new : c.controller_service ≡ some a.created
  pub created_next : c.created ≡ a.created + 1
  pub port_shown : c.doctor_port ≡ settings.port
  pub calls :
      (calls : List Call) × (c.trace
        ≡ start_worker a.created
          ∷ on_service a.created ensure_backend
          ∷ create_receiver a.created (receiver_args settings a.active_token)
          ∷ create_service a.created
          ∷ scan_network settings.port
          ∷ on_service id stop
          ∷ on_receiver id request_stop
          ∷ calls)

stopped_lem :
    (settings : GuiSettings) (id : ℕ) (a b : App)
    → IsRestarting settings id a b
    → apply_stopped id b
      ≡ Gui.after Gui.start_receiver (record b {
        running = false;
        receiver = none;
        controller_service = none;
        restart_pending = false;
      })
unfolding apply_stopped end_receiver
stopped_lem settings id a b h =
    let same : equals b.receiver (some id) ≡ true =
      ground (arith, option_eq.beq_iff b.receiver (some id), h.receiver_kept) in
    let due : (b.restart_pending && not b.closing) ≡ true = ground (arith, h.waits, h.open_still) in
    rw (same, apply_stopped, end_receiver, due) refl

relaunch :
    (settings : GuiSettings) (id : ℕ) (a b d : App)
    → IsRestarting settings id a b
    → d
      ≡ Gui.after Gui.start_receiver (record b {
        running = false;
        receiver = none;
        controller_service = none;
        restart_pending = false;
      })
    → IsRestarted settings id a (start_receiver d)
unfolding start_receiver launch refresh_doctor refresh_system_diagnostics
relaunch settings id a b d h e =
    let (calls, stops) = h.stops in
    rw (e, start_receiver, h.open_still)
      (record {
        runs = refl;
        receiver_new = rw h.created_kept refl;
        service_new = rw h.created_kept refl;
        created_next = rw h.created_kept refl;
        port_shown = rw h.settings_kept refl;
        calls = (calls, rw (h.created_kept, h.settings_kept, h.token_kept, stops) refl);
      })

-- The window behind `save_settings`, whose files changed and whose settings window may be gone.
use_settings-IsRestarting :
    (window : Bool) (settings : GuiSettings) (id : ℕ) (a b : App)
    → b.receiver ≡ some id
    → b.controller_service ≡ some id
    → b.running ≡ true
    → b.closing ≡ false
    → b.created ≡ a.created
    → b.active_token ≡ a.active_token
    → b.pending ≡ a.pending
    → IsRestarting settings id a (use_settings window settings b)
unfolding use_settings take_settings
use_settings-IsRestarting true settings id a b e1 e2 e3 e4 e6 e7 e8 =
    restart-IsRestarting settings id a (take_settings true settings b) e1 e2 e3 e4 refl e6 e7 e8
use_settings-IsRestarting false settings id a b e1 e2 e3 e4 e6 e7 e8 =
    restart-IsRestarting settings id a (take_settings false settings b) e1 e2 e3 e4 refl e6 e7 e8

use_saved-IsRestarting :
    (env : Setting) (settings : GuiSettings) (saved : Disk × Bool) (id : ℕ) (a : App)
    → IsSound 1 none (facts a)
    → a.receiver ≡ some id
    → a.closing ≡ false
    → saved.1 ≡ true
    → IsRestarting settings id a (use_saved env settings saved a).0
unfolding use_saved
use_saved-IsRestarting env settings (disk, false) id a s e1 e4 h = absurd (ground (arith, h))
use_saved-IsRestarting env settings (disk, true) id a s e1 e4 h =
    use_settings-IsRestarting env.window settings id a (record a { disk = disk }) e1
      (s.own_service ∙ e1) (s.runs ∙ rw e1 refl) e4 refl refl refl

pub apply_settings-IsRestarted :
    (env : Setting) (host port allowed : List ℕ) (settings : GuiSettings) (id : ℕ) (a : App)
    → IsSound 1 none (facts a)
    → a.receiver ≡ some id
    → a.closing ≡ false
    → validate_bind_settings env.unicode env.digit host port allowed ≡ valid settings
    → (save_settings env.files settings a.disk).1 ≡ true
    → let d = apply_stopped id (apply_settings env host port allowed a).0 in
      (d.pending ≡ Gui.start_receiver ∷ a.pending) × IsRestarted settings id a (start_receiver d)
unfolding apply_settings save_and_use
apply_settings-IsRestarted env host port allowed settings id a s e1 e4 validated saved =
    rw (validated, apply_settings, save_and_use)
      (let k =
          use_saved-IsRestarting env settings (save_settings env.files settings a.disk) id a s e1 e4
            saved in
        let b = (use_saved env settings (save_settings env.files settings a.disk) a).0 in
        (
          ap (λ (d : App). d.pending) (stopped_lem settings id a b k)
              ∙ ap (λ timers. Gui.start_receiver ∷ timers) k.pending_kept,
          relaunch settings id a b (apply_stopped id b) k (stopped_lem settings id a b k),
        ))
