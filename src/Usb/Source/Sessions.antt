-- ===== src/Usb/Source/Sessions.antt =====
-- Every session of the source is closed, and the driver is repaired once at most.
use niw_pspto_pc.Base.{ℕ, ◌≤◌, ◌≡◌, refl, Bool, true, false, List, [], ◌∷◌, arith, if◌then◌else◌}
use niw_pspto_pc.Usb.Device.{
  UsbDevice, Io, write_to, read_from, call_connected, call_packet, open_device, World,
}
use niw_pspto_pc.Usb.Source.{
  Reaction, done, lets_out, raises, sends, Callbacks, serve, Attempt, unavailable, no_device,
  opening_crashes, found_device, Source, Round, goes_on, stopped, crashed, end_session, run_session,
  report_unavailable, run_attempt, run, new_source,
}
use niw_pspto_pc.Usb.Source.Laws.{
  between, opened, stage_of, repairs, is_inner, AllEnds, serve-Within,
}

abbrev IsOpen : ℕ → List Io → Type 0
IsOpen n trace = (stage_of trace ≡ opened) × (repairs trace ≡ n)

inner-IsOpen :
    (n : ℕ) (io : Io) (trace : List Io)
    → is_inner io ≡ true
    → IsOpen n trace
    → IsOpen n (io ∷ trace)
inner-IsOpen n (write_to endpoint bytes timeout answer) trace h t = t
inner-IsOpen n (read_from endpoint size timeout answer) trace h t = t
inner-IsOpen n call_connected trace h t = t
inner-IsOpen n (call_packet payload) trace h t = t
inner-IsOpen n io trace h t = cc

AllEnds-trivial : {S : Type 0} (r : Reaction S) → AllEnds (λ (_ : S). Unit {0}) r
AllEnds-trivial (done s) = tt
AllEnds-trivial (lets_out why s) = tt
AllEnds-trivial (raises s) = tt
AllEnds-trivial (sends payload rest) = λ sent. AllEnds-trivial (rest sent)

module _ {S : Type 0} (callbacks : Callbacks S) where
  end_session_closes :
      (n : ℕ) (interrupted : Bool) (w : World S)
      → stage_of w.trace ≡ opened
      → w.closed ≡ false
      → repairs w.trace ≡ n
      → (stage_of (end_session callbacks interrupted w).1.trace ≡ between)
        × (repairs (end_session callbacks interrupted w).1.trace ≡ n)
  unfolding end_session
  end_session_closes n interrupted w h live e = (ground arith, ground arith)

  run_session_closes :
      (n : ℕ) (device : UsbDevice) (rounds : ℕ) (interrupted : Bool) (w : World S)
      → stage_of w.trace ≡ between
      → repairs w.trace ≡ n
      → (stage_of (run_session callbacks device rounds interrupted w).0.trace ≡ between)
        × (repairs (run_session callbacks device rounds interrupted w).0.trace ≡ n)
  unfolding run_session
  run_session_closes n device rounds interrupted w h e =
      let begun : World S = record w { trace = open_device ∷ w.trace; closed = false } in
      let served =
        serve-Within (IsOpen n) (λ (_ : S). Unit {0}) (inner-IsOpen n) device callbacks
          (λ payload s q. AllEnds-trivial (callbacks.on_packet payload s)) (λ s t q k. tt) rounds in
      let open_still =
        served.kept begun
          (record { held = (ground arith, ground arith); unclosed = refl; user = tt }) in
      end_session_closes n interrupted (serve callbacks device rounds begun).1 open_still.held.0
        open_still.unclosed open_still.held.1

  -- Between two rounds.
  record IsTidy (s : Source S) : Type 0 where
    pub stage : stage_of s.world.trace ≡ between
    pub repaired : repairs s.world.trace ≡ (if s.driver_repair_attempted then 1 else 0)

  run_attempt-IsTidy :
      (attempt : Attempt) (s : Source S) → IsTidy s → IsTidy (run_attempt callbacks attempt s).0
  unfolding run_attempt report_unavailable
  run_attempt-IsTidy (unavailable driver_access) s h = record {
    stage = ground arith;
    repaired = ground arith;
  }
  run_attempt-IsTidy no_device s h = record { stage = h.stage; repaired = h.repaired }
  run_attempt-IsTidy opening_crashes s h = h
  run_attempt-IsTidy (found_device device rounds interrupted) s h =
      let (stage, repaired) =
        run_session_closes (repairs s.world.trace) device rounds interrupted s.world h.stage refl in
      record { stage = stage; repaired = ground (arith, repaired, h.repaired) }

  run-IsTidy :
      (attempts : List Attempt) (s : Source S) → IsTidy s → IsTidy (run callbacks attempts s)
  unfolding run
  run-IsTidy [] s h = h
  run-IsTidy (attempt ∷ attempts) s h =
      let k = run_attempt-IsTidy attempt s h in
      by_round (run_attempt callbacks attempt s).1 k (run-IsTidy attempts _ k)
    where
      by_round :
          (round : Round)
          → {after rest : Source S} → IsTidy after
          → IsTidy rest
          → IsTidy
              (elim round as (λ _. Source S) [ goes_on ↦ rest | stopped ↦ after | crashed ↦ after ])
      by_round goes_on k r = r
      by_round stopped k r = k
      by_round crashed k r = k

  -- Whatever the devices answer and the callbacks do, in any sequence of rounds: each device that was
  -- opened has been disposed of exactly once when the source ends, its end was told once and after
  -- that, and no other was opened before; and at most one repair of the driver was started.
  pub run_closes :
      (attempts : List Attempt) (s : S)
      → (stage_of (run callbacks attempts (new_source s)).world.trace ≡ between)
        × (repairs (run callbacks attempts (new_source s)).world.trace ≤ 1)
  run_closes attempts s =
      let h = run-IsTidy attempts (new_source s) (record { stage = refl; repaired = refl }) in
      (h.stage, ground (arith, h.repaired))
