-- ===== src/Gui/Reach.antt =====
-- The invariant holds in every state that the event loop reaches.
use niw_pspto_pc.Base.{
  ℕ, ◌+◌, ◌≡◌, refl, sym, Bool, true, false, String, List, [], ◌∷◌, ◌++◌, Option, none, some, arith,
  ltb, length, not,
}
use mathlib.Core.Path.{subst}
use mathlib.Core.Option.{some-injective}
use niw_pspto_pc.Settings.{GuiSettings}
use niw_pspto_pc.Settings.File.{Disk}
use niw_pspto_pc.Gui as Gui
use niw_pspto_pc.Gui.{
  App, new_app, Timer, poll_messages, destroy_root, set_code, live_diagnostics, system_diagnostics,
}
use niw_pspto_pc.Gui.Actions.{validate_code_entry, normalize_code_text, all_letters}
use niw_pspto_pc.Settings.{text_beq}
use niw_pspto_pc.Protocol.Pairing.{Unicode}
use niw_pspto_pc.Gui.Messages.{drain, poll}
use niw_pspto_pc.Gui.Lifecycle.{refresh_system_diagnostics}
use niw_pspto_pc.Gui.Run.{
  Answers, fire, Step, selects, disconnects, types, authorizes, clears, applies, retries, closes,
  posts, fires, Reach, here, next,
}
use niw_pspto_pc.Gui.Facts.{Facts, facts, branch}
use niw_pspto_pc.Gui.Invariant.{
  IsSound, polls, polls-append, is_poll, polls-other, after-IsSound, new_app_facts-IsSound,
}
use niw_pspto_pc.Gui.Sound.{
  Sound, facts-select_transport, disconnect_current-IsSound, authorize-Sound, clear_pairing-Sound,
  start_receiver-Sound, apply_settings-Sound, retry_gamepad-Sound, close-Sound, live-Sound,
}
use niw_pspto_pc.Gui.Sound.Messages.{drain-Sound}

-- The timer that fires is gone from the list.
drop_timer :
    (timer : Timer) (before behind : List Timer)
    → polls (before ++ timer ∷ behind) ≡ polls (before ++ behind) + polls (timer ∷ [])
drop_timer timer before behind = omega (
  arith,
  polls-append before (timer ∷ behind),
  polls-append before behind,
  polls-append (timer ∷ []) behind,
)

module _ (shut : Option ℕ) where
  without_timer :
      (f : Facts) (k : ℕ) (timers : List Timer)
      → (f.closing ≡ false → polls timers ≡ k)
      → IsSound 1 shut f
      → IsSound k shut (record f { pending = timers })
  without_timer f k timers h s = record {
    runs = s.runs;
    own_service = s.own_service;
    numbered = s.numbered;
    restarts = s.restarts;
    paired = s.paired;
    polled = h;
    final = s.final;
  }

  -- The queue is drained, and polled again unless the window closes.
  again :
      (f : Facts)
      → f.closing ≡ false
      → IsSound 0 shut f
      → IsSound 1 shut (record f { pending = poll_messages ∷ f.pending })
  again f open' s = record {
    runs = s.runs;
    own_service = s.own_service;
    numbered = s.numbered;
    restarts = s.restarts;
    paired = s.paired;
    polled = λ h. ground (arith, s.polled h);
    final = s.final;
  }

  closed : (f : Facts) → f.closing ≡ true → IsSound 0 shut f → IsSound 1 shut f
  closed f shut s = record {
    runs = s.runs;
    own_service = s.own_service;
    numbered = s.numbered;
    restarts = s.restarts;
    paired = s.paired;
    polled = λ h. absurd (ground (arith, h, shut));
    final = s.final;
  }

  poll-Sound :
      (as_text : List ℕ → String) (ready : ℕ → Bool) (a : App)
      → Sound 0 shut a
      → Sound 1 shut (poll as_text ready a)
  unfolding poll
  poll-Sound as_text ready a s =
      let drained = drain as_text ready 0 a.messages (record a { messages = [] }) in
      let kept = drain-Sound 0 shut as_text ready 0 a.messages (record a { messages = [] }) s in
      branch (Sound 1 shut) drained.closing _ _ (λ e. closed (facts drained) e kept)
        (λ e. again (facts drained) e kept)

  other-Sound :
      (timer : Timer) (before behind : List Timer) (a : App)
      → is_poll timer ≡ false
      → a.pending ≡ before ++ timer ∷ behind
      → Sound 1 shut a
      → Sound 1 shut (record a { pending = before ++ behind })
  other-Sound timer before behind a other e s =
      without_timer (facts a) 1 (before ++ behind)
        (λ h.
          ground
            (arith, drop_timer timer before behind, polls-other timer [] other, rw e at s.polled h))
        s

  fire-Sound :
      (env : Answers) (timer : Timer) (before behind : List Timer) (a : App)
      → a.pending ≡ before ++ timer ∷ behind
      → Sound 1 shut a
      → Sound 1 shut (fire env timer (record a { pending = before ++ behind }))
  unfolding fire
  fire-Sound env poll_messages before behind a e s =
      poll-Sound env.as_text env.ready (record a { pending = before ++ behind })
        (without_timer (facts a) 0 (before ++ behind)
          (λ h. ground (arith, drop_timer poll_messages before behind, rw e at s.polled h)) s)
  fire-Sound env Gui.start_receiver before behind a e s =
      start_receiver-Sound 1 shut (record a { pending = before ++ behind })
        (other-Sound Gui.start_receiver before behind a refl e s)
  fire-Sound env destroy_root before behind a e s =
      other-Sound destroy_root before behind a refl e s
  fire-Sound env (set_code text) before behind a e s =
      other-Sound (set_code text) before behind a refl e s
  fire-Sound env live_diagnostics before behind a e s =
      live-Sound 1 shut env.metrics (record a { pending = before ++ behind })
        (other-Sound live_diagnostics before behind a refl e s)
  fire-Sound env system_diagnostics before behind a e s =
      unfold refresh_system_diagnostics in other-Sound system_diagnostics before behind a refl e s

  -- The entry of a code decides over none of the fields.
  validate_code_entry-Sound :
      (u : Unicode) (text : List ℕ) (a : App)
      → Sound 1 shut a
      → Sound 1 shut (validate_code_entry u text a).0
  unfolding validate_code_entry
  validate_code_entry-Sound u text a s =
      let normalized = normalize_code_text u text in
      let P = λ (r : App × Bool). Sound 1 shut r.0 in
      branch P (ltb 5 (length normalized)) _ _ (λ e. s)
        (λ e.
          branch P (not (all_letters normalized)) _ _ (λ h. s)
            (λ h.
              branch P (not (text_beq text normalized)) _ _
                (λ k. after-IsSound 1 shut (set_code normalized) (facts a) refl s) (λ k. s)))

  Step-Sound : {a b : App} → Step a b → Sound 1 shut a → Sound 1 shut b
  Step-Sound (selects t a) s = subst (IsSound 1 shut) (sym (facts-select_transport 1 shut t a)) s
  Step-Sound (disconnects ready a) s = disconnect_current-IsSound 1 shut ready a s
  Step-Sound (types u text a e) s = validate_code_entry-Sound u text a s
  Step-Sound (authorizes u ready a) s = authorize-Sound 1 shut u ready a s
  Step-Sound (clears ready a) s = clear_pairing-Sound 1 shut ready a s
  Step-Sound (applies env host port allowed a) s =
      apply_settings-Sound 1 shut env host port allowed a s
  Step-Sound (retries a) s = retry_gamepad-Sound 1 shut a s
  Step-Sound (closes a) s = close-Sound 1 shut a s
  Step-Sound (posts m a) s = s
  Step-Sound (fires env timer before behind a e) s = fire-Sound env timer before behind a e s

new_app-Sound :
    (settings : GuiSettings) (disk : Disk) (auto_start : Bool)
    → Sound 1 none (new_app settings disk auto_start)
unfolding new_app
new_app-Sound settings disk true = new_app_facts-IsSound 1 none _ refl refl refl refl refl refl refl
new_app-Sound settings disk false =
    new_app_facts-IsSound 1 none _ refl refl refl refl refl refl refl

-- In every state that the window reaches from its constructor by any order of clicks, messages and
-- timers: it runs exactly while it has a receiver, whose service is its own; only a running or closing
-- window waits for a restart; an address is paired only while a transport is connected; and until it
-- closes exactly one timer polls the queue.
pub Reach-IsSound :
    (settings : GuiSettings) (disk : Disk) (auto_start : Bool) {a : App}
    → Reach (new_app settings disk auto_start) a
    → IsSound 1 none (facts a)
Reach-IsSound settings disk auto_start here = new_app-Sound settings disk auto_start
Reach-IsSound settings disk auto_start (next r step) =
    Step-Sound none step (Reach-IsSound settings disk auto_start r)

keep_shut :
    (n : ℕ) {a b : App} → Reach a b → IsSound 1 (some n) (facts a) → IsSound 1 (some n) (facts b)
keep_shut n here s = s
keep_shut n (next r step) s = Step-Sound (some n) step (keep_shut n r s)

-- Once the window closes, whatever clicks, messages and timers still come, it goes on closing and makes
-- no further receiver.
pub closing_is_final :
    (settings : GuiSettings) (disk : Disk) (auto_start : Bool) {a b : App}
    → Reach (new_app settings disk auto_start) a
    → a.closing ≡ true
    → Reach a b
    → (b.closing ≡ true) × (b.created ≡ a.created)
closing_is_final settings disk auto_start {a} {b} r over later =
    let s = Reach-IsSound settings disk auto_start r in
    let shut : IsSound 1 (some a.created) (facts a) = record {
      runs = s.runs;
      own_service = s.own_service;
      numbered = s.numbered;
      restarts = s.restarts;
      paired = s.paired;
      polled = s.polled;
      final = λ n h. (over, some-injective a.created n h);
    } in
    (keep_shut a.created later shut).final a.created refl
