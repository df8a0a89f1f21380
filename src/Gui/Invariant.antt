-- ===== src/Gui/Invariant.antt =====
-- The invariant of the window, and that every step keeps it.
use niw_pspto_pc.Base.{
  ℕ, ◌+◌, ◌<◌, ◌≡◌, refl, ◌∙◌, Bool, true, false, List, [], ◌∷◌, ◌++◌, Option, none, some, nat_eq,
  option_eq, arith,
}
use niw_pspto_pc.Receiver.State.{Address, TransportKind}
use niw_pspto_pc.Gui.{
  Timer, poll_messages, start_receiver, destroy_root, set_code, live_diagnostics,
  system_diagnostics,
}
use niw_pspto_pc.Gui.Facts.{Facts}

abbrev pub is_some {ℓ} : {A : Type ℓ} → Option A → Bool
is_some none = false
is_some (some a) = true

-- How often the queue is to be polled.
abbrev pub polls : List Timer → ℕ
polls [] = 0
polls (poll_messages ∷ timers) = 1 + polls timers
polls (_ ∷ timers) = polls timers

-- The window runs exactly while it has a receiver, whose service is its own; receivers are numbered in
-- their order; only a running window waits for a restart, or one that closes; an address is paired only
-- while a transport is connected; and the queue is polled by exactly `k` timers until the window closes. If `shut` is a number, the
-- window closes and has made so many receivers.
pub record IsSound (k : ℕ) (shut : Option ℕ) (f : Facts) : Type 0 where
  pub runs : f.running ≡ is_some f.receiver
  pub own_service : f.controller_service ≡ f.receiver
  pub numbered : (id : ℕ) → f.receiver ≡ some id → id < f.created
  pub restarts : f.restart_pending ≡ true → f.closing ≡ false → f.running ≡ true
  pub paired : is_some f.paired_address ≡ true → is_some f.connected_transport ≡ true
  pub polled : f.closing ≡ false → polls f.pending ≡ k
  pub final : (n : ℕ) → shut ≡ some n → (f.closing ≡ true) × (f.created ≡ n)

pub polls-append :
    (before behind : List Timer) → polls (before ++ behind) ≡ polls before + polls behind
polls-append [] behind = omega arith
polls-append (poll_messages ∷ before) behind = omega (arith, polls-append before behind)
polls-append (start_receiver ∷ before) behind = polls-append before behind
polls-append (destroy_root ∷ before) behind = polls-append before behind
polls-append (set_code text ∷ before) behind = polls-append before behind
polls-append (live_diagnostics ∷ before) behind = polls-append before behind
polls-append (system_diagnostics ∷ before) behind = polls-append before behind

-- Another timer that does not poll.
abbrev pub is_poll : Timer → Bool
is_poll poll_messages = true
is_poll _ = false

pub polls-other :
    (t : Timer) (timers : List Timer) → is_poll t ≡ false → polls (t ∷ timers) ≡ polls timers
polls-other poll_messages timers h = absurd (ground (arith, h))
polls-other start_receiver timers h = refl
polls-other destroy_root timers h = refl
polls-other (set_code text) timers h = refl
polls-other live_diagnostics timers h = refl
polls-other system_diagnostics timers h = refl

module _ (k : ℕ) (shut : Option ℕ) where
  pub after-IsSound :
      (t : Timer) (f : Facts)
      → is_poll t ≡ false
      → IsSound k shut f
      → IsSound k shut (record f { pending = t ∷ f.pending })
  after-IsSound t f h s = record {
    runs = s.runs;
    own_service = s.own_service;
    numbered = s.numbered;
    restarts = s.restarts;
    paired = s.paired;
    polled = λ open'. polls-other t f.pending h ∙ s.polled open';
    final = s.final;
  }

  -- The connection is gone.
  pub lose-IsSound :
      (f : Facts)
      → IsSound k shut f
      → IsSound k shut (record f { paired_address = none; connected_transport = none })
  lose-IsSound f s = record {
    runs = s.runs;
    own_service = s.own_service;
    numbered = s.numbered;
    restarts = s.restarts;
    paired = λ h. absurd (ground (arith, h));
    polled = s.polled;
    final = s.final;
  }

  pub connect-IsSound :
      (f : Facts) (a : Address) (t : TransportKind)
      → IsSound k shut f
      → IsSound k shut (record f { paired_address = some a; connected_transport = some t })
  connect-IsSound f a t s = record {
    runs = s.runs;
    own_service = s.own_service;
    numbered = s.numbered;
    restarts = s.restarts;
    paired = λ h. refl;
    polled = s.polled;
    final = s.final;
  }

  pub forget-IsSound :
      (f : Facts) → IsSound k shut f → IsSound k shut (record f { paired_address = none })
  forget-IsSound f s = record {
    runs = s.runs;
    own_service = s.own_service;
    numbered = s.numbered;
    restarts = s.restarts;
    paired = λ h. absurd (ground (arith, h));
    polled = s.polled;
    final = s.final;
  }

  -- The receiver has stopped; a restart is taken up or none was due.
  pub stop-IsSound :
      (f : Facts) (pending : Bool)
      → (pending ≡ true → f.closing ≡ true)
      → IsSound k shut f
      → IsSound k shut (record f {
        running = false;
        receiver = none;
        controller_service = none;
        restart_pending = pending;
      })
  stop-IsSound f pending due s = record {
    runs = refl;
    own_service = refl;
    numbered = λ id h. absurd (ground (arith, h));
    restarts = λ h open'. absurd (ground (arith, due, h, open'));
    paired = s.paired;
    polled = s.polled;
    final = s.final;
  }

  pub launch-IsSound :
      (f : Facts)
      → f.closing ≡ false
      → IsSound k shut f
      → IsSound k shut (record f {
        running = true;
        receiver = some f.created;
        controller_service = some f.created;
        created = f.created + 1;
      })
  launch-IsSound f open' s = record {
    runs = refl;
    own_service = refl;
    numbered = λ id h. ground (arith, h);
    restarts = λ h unshut. refl;
    paired = s.paired;
    polled = s.polled;
    final = λ n h. absurd (ground (arith, s.final n h, open'));
  }

  pub restart-IsSound :
      (f : Facts)
      → f.running ≡ true
      → IsSound k shut f
      → IsSound k shut (record f { restart_pending = true })
  restart-IsSound f running s = record {
    runs = s.runs;
    own_service = s.own_service;
    numbered = s.numbered;
    restarts = λ h open'. running;
    paired = s.paired;
    polled = s.polled;
    final = s.final;
  }

  pub close-IsSound :
      (f : Facts)
      → IsSound k shut f
      → IsSound k shut (record f { closing = true; restart_pending = false })
  close-IsSound f s = record {
    runs = s.runs;
    own_service = s.own_service;
    numbered = s.numbered;
    restarts = λ h open'. absurd (ground (arith, h));
    paired = s.paired;
    polled = λ open'. absurd (ground (arith, open'));
    final = λ n h. (refl, (s.final n h).1);
  }

  pub new_app_facts-IsSound :
      (f : Facts)
      → f.receiver ≡ none
      → f.controller_service ≡ none
      → f.running ≡ false
      → f.restart_pending ≡ false
      → f.paired_address ≡ none
      → polls f.pending ≡ k
      → shut ≡ none
      → IsSound k shut f
  new_app_facts-IsSound f e1 e2 e3 e4 e5 e6 none_shut = record {
    runs = rw (e1, e3) refl;
    own_service = rw (e1, e2) refl;
    numbered = λ id h. absurd (ground (arith, h, e1));
    restarts = λ h open'. absurd (ground (arith, h, e4));
    paired = λ h. absurd (ground (arith, rw e5 at h));
    polled = λ open'. e6;
    final = λ n h. absurd (ground (arith, none_shut, h));
  }
