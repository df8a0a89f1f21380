-- ===== src/Usb/Source/Users.antt =====
-- What the callbacks keep of their state, the whole source keeps.
use niw_pspto_pc.Base.{
  ℕ, ◌≡◌, refl, ◌∙◌, Bool, List, [], ◌∷◌, some, Option-cases, inl, inr, if◌then◌else◌, true, false,
  arith,
}
use niw_pspto_pc.Usb.Device.{UsbDevice, Io, call_disconnected, open_device, World, close}
use niw_pspto_pc.Usb.Source.{
  Callbacks, call_hook, serve, Attempt, unavailable, no_device, opening_crashes, found_device,
  Source, Round, goes_on, stopped, crashed, end_session, run_session, report_unavailable,
  run_attempt, run,
}
use niw_pspto_pc.Usb.Source.Laws.{AllEnds, serve-Within}

module _ {S : Type 0} (Q : S → Type 0) (callbacks : Callbacks S)
    (reacts : (payload : List ℕ) (s : S) → Q s → AllEnds Q (callbacks.on_packet payload s))
    (connects : (s t : S) → Q s → callbacks.on_connected s ≡ some t → Q t)
    (disconnects : (s t : S) → Q s → callbacks.on_disconnected s ≡ some t → Q t) where
  close-user : (w : World S) → (close w).user ≡ w.user
  unfolding close
  close-user w = ground arith

  ending-user :
      (w : World S) → Q w.user → Q (call_hook call_disconnected callbacks.on_disconnected w).1.user
  unfolding call_hook
  ending-user w q = elim (Option-cases (callbacks.on_disconnected w.user)) [
    | inl failed ↦ rw (failed, call_hook) q
    | inr (t, went) ↦ rw (went, call_hook) (disconnects w.user t q went)
  ]

  end_session-user :
      (interrupted : Bool) (w : World S) → Q w.user → Q (end_session callbacks interrupted w).1.user
  unfolding end_session
  end_session-user interrupted w q =
      ending-user (close (if interrupted then close w else w)) (rw (closed_user interrupted) q)
    where
      closed_user : (b : Bool) → (close (if b then close w else w)).user ≡ w.user
      closed_user true = close-user (close w) ∙ close-user w
      closed_user false = close-user w

  run_session-user :
      (device : UsbDevice) (rounds : ℕ) (interrupted : Bool) (w : World S)
      → Q w.user
      → Q (run_session callbacks device rounds interrupted w).0.user
  unfolding run_session
  run_session-user device rounds interrupted w q =
      let begun : World S = record w { trace = open_device ∷ w.trace; closed = false } in
      let served =
        serve-Within (λ (_ : List Io). Unit {0}) Q (λ io trace h t. tt) device callbacks reacts
          connects rounds in
      let k = served.kept begun (record { held = tt; unclosed = refl; user = q }) in
      end_session-user interrupted (serve callbacks device rounds begun).1 k.user

  report_unavailable-user :
      (driver_access : Bool) (s : Source S)
      → (report_unavailable driver_access s).world.user ≡ s.world.user
  unfolding report_unavailable
  report_unavailable-user driver_access s = ground arith

  run_attempt-user :
      (attempt : Attempt) (s : Source S)
      → Q s.world.user
      → Q (run_attempt callbacks attempt s).0.world.user
  unfolding run_attempt
  run_attempt-user (unavailable driver_access) s q = rw (report_unavailable-user driver_access s) q
  run_attempt-user no_device s q = q
  run_attempt-user opening_crashes s q = q
  run_attempt-user (found_device device rounds interrupted) s q =
      run_session-user device rounds interrupted s.world q

  pub run-user :
      (attempts : List Attempt) (s : Source S)
      → Q s.world.user
      → Q (run callbacks attempts s).world.user
  unfolding run
  run-user [] s q = q
  run-user (attempt ∷ attempts) s q =
      let k = run_attempt-user attempt s q in
      by_round (run_attempt callbacks attempt s).1 _ _ k (run-user attempts _ k)
    where
      by_round :
          (round : Round) (after rest : Source S)
          → Q after.world.user
          → Q rest.world.user
          → Q
              (elim round as (λ _. Source S) [
                | goes_on ↦ rest
                | stopped ↦ after
                | crashed ↦ after
              ]).world.user
      by_round goes_on after rest k r = r
      by_round stopped after rest k r = k
      by_round crashed after rest k r = k
