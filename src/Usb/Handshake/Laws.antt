-- ===== src/Usb/Handshake/Laws.antt =====
-- The handshake ends after a bounded number of calls, and succeeds only with a proper HELLO or a
-- frame.
use niw_pspto_pc.Base.{
  ℕ, zero, suc, ◌+◌, ◌≡◌, sym, ap, ◌∙◌, true, false, List, [], ◌∷◌, Option, none, some, All,
  Bool-cases, Option-cases, inl, inr, arith, if◌then◌else◌,
}
use mathlib.Core.Path.{ap₂}
use niw_pspto_pc.Struct.{IsByte, Order, unpack}
use niw_pspto_pc.Struct.Canonical.{pack-unpack}
use niw_pspto_pc.Protocol.{ok, or_struct_error}
use niw_pspto_pc.Usb.Frame.{
  usbhostfs_magic, usbhostfs_command_endpoint, usbhostfs_input_endpoint, usbhostfs_read_size,
  usbhostfs_command_header, usbhostfs_hello_command, usbhostfs_hello, usbhostfs_handshake_attempts,
  is_usbhostfs_async_frame,
}
use niw_pspto_pc.Usb.Frame.Laws.{packed_hello}
use niw_pspto_pc.Usb.Device.{
  UsbDevice, gives, Io, read_from, write_to, World, M, ◌>>◌, pure, Outcome, returns, read,
}
use niw_pspto_pc.Usb.Device.Logic.{
  >>=-returns, AtMost, >>=-AtMost, if-AtMost, weaken-AtMost, pure-AtMost, disconnect_unless-returns,
  or_escape-returns, pure-returns, read-returns, write-returns, disconnect_unless-AtMost,
  or_escape-AtMost, read-AtMost, write-AtMost,
}
use niw_pspto_pc.Usb.Handshake.{
  is_empty, is_hello, reply_to_usbhostfs_hello, await_hello, take_existing, send_probe,
  perform_usbhostfs_handshake,
}

-- A device that hands out bytes.
abbrev pub GivesBytes : UsbDevice → Type 0
GivesBytes device =
    (trace : List Io) (bytes : List ℕ) → device.read_answer trace ≡ gives bytes → All IsByte bytes

is_hello_fields :
    (fields : List ℕ)
    → is_hello fields ≡ true
    → fields ≡ usbhostfs_magic ∷ usbhostfs_hello_command ∷ 0 ∷ []
unfolding is_hello
is_hello_fields (magic ∷ command ∷ extra ∷ []) h = ground arith
is_hello_fields fields h = cc

-- How a handshake succeeds: with the frame that was waiting, and nothing else done; or with a HELLO
-- of the device, answered by a whole HELLO.
pub data Greeted (before : List Io) : Option (List ℕ) → List Io → Type 0 where
  by_frame :
      (bytes : List ℕ)
      → is_usbhostfs_async_frame bytes ≡ ok true
      → Greeted before
          (some bytes)
          (read_from usbhostfs_input_endpoint usbhostfs_read_size 100 (gives bytes) ∷ before)
  by_hello :
      (timeout : ℕ) (rest : List Io)
      → Greeted before none (
          write_to usbhostfs_command_endpoint usbhostfs_hello 1000 (gives 12)
          ∷ read_from usbhostfs_input_endpoint usbhostfs_read_size timeout (gives usbhostfs_hello)
          ∷ rest)

unpacked_fields :
    (bytes fields : List ℕ)
    → or_struct_error (unpack Order.little usbhostfs_command_header bytes) ≡ ok fields
    → unpack Order.little usbhostfs_command_header bytes ≡ some fields
unpacked_fields bytes fields h =
    elim (Option-cases (unpack Order.little usbhostfs_command_header bytes)) [
      | inl bad ↦ absurd (ground arith)
      | inr (vs, good) ↦ ground arith
    ]

module _ {S : Type 0} (device : UsbDevice) where
  reply-AtMost : (bytes : List ℕ) → AtMost {S = S} 1 (reply_to_usbhostfs_hello device bytes)
  unfolding reply_to_usbhostfs_hello
  reply-AtMost bytes = >>=-AtMost 0 1 (disconnect_unless-AtMost _ _) (λ _.
      >>=-AtMost 0 1 (or_escape-AtMost _) (λ fields.
        >>=-AtMost 0 1 (disconnect_unless-AtMost _ _) (λ _.
          >>=-AtMost 1 0 (write-AtMost device _ _ _) (λ written. disconnect_unless-AtMost _ _))))

  replied-AtMost :
      (bytes : List ℕ)
      → AtMost {S = S} 1 (reply_to_usbhostfs_hello device bytes >> pure {A = Option (List ℕ)} none)
  replied-AtMost bytes = >>=-AtMost 1 0 (reply-AtMost bytes) (λ _. pure-AtMost none)

  await_hello-AtMost : (attempts : ℕ) → AtMost {S = S} (attempts + 1) (await_hello device attempts)
  unfolding await_hello
  await_hello-AtMost zero = record { bound = λ w. omega arith }
  await_hello-AtMost (suc attempts) = record {
    bound = λ w.
        let once =
          >>=-AtMost 1 (attempts + 1)
            (read-AtMost device usbhostfs_input_endpoint usbhostfs_read_size 250)
            (λ bytes.
              if-AtMost (is_empty bytes) (await_hello-AtMost attempts)
                (weaken-AtMost 1 (attempts + 1) (omega arith) (replied-AtMost bytes))) in
        omega (arith, once.bound w);
  }

  -- Whatever the device answers, the handshake ends after at most 13 calls on it.
  pub perform_usbhostfs_handshake-AtMost : AtMost {S = S} 13 (perform_usbhostfs_handshake device)
  unfolding perform_usbhostfs_handshake send_probe take_existing
  perform_usbhostfs_handshake-AtMost = >>=-AtMost 1 12 (read-AtMost device _ _ _) (λ existing.
      if-AtMost (is_empty existing)
        (>>=-AtMost 1 11 (write-AtMost device _ _ _) (λ written.
          >>=-AtMost 0 11 (disconnect_unless-AtMost _ _)
            (λ _. await_hello-AtMost usbhostfs_handshake_attempts)))
        (weaken-AtMost 1 12 (omega arith) (
          >>=-AtMost 0 1 (or_escape-AtMost _) (λ is_frame.
            if-AtMost is_frame (weaken-AtMost 0 1 (omega arith) (pure-AtMost _))
              (replied-AtMost existing)))))

  pub reply-returns :
      (bytes : List ℕ) (u v : World S) {x : Unit {0}}
      → All IsByte bytes
      → reply_to_usbhostfs_hello device bytes u ≡ (returns x, v)
      → (bytes ≡ usbhostfs_hello)
        × (v.trace ≡ write_to usbhostfs_command_endpoint usbhostfs_hello 1000 (gives 12) ∷ u.trace)
  unfolding reply_to_usbhostfs_hello
  reply-returns bytes u v small h =
      let (x1, e1, h1) = >>=-returns _ _ u h in
      let (sized, s1) = disconnect_unless-returns _ _ u e1 in
      let (fields, e2, h2) = >>=-returns _ _ _ h1 in
      let (unpacked, s2) = or_escape-returns _ _ e2 in
      let (x3, e3, h3) = >>=-returns _ _ _ h2 in
      let (hello, s3) = disconnect_unless-returns _ _ _ e3 in
      let (written, e4, h4) = >>=-returns _ _ _ h3 in
      let called = write-returns device _ _ _ _ e4 in
      let (whole, s4) =
        disconnect_unless-returns _ _ _ (ap (λ (r : Outcome (Unit {0}) × World S). r.0) h4) in
      let last = sym s4 ∙ ap (λ (r : Outcome (Unit {0}) × World S). r.1) h4 in
      let start = s3 ∙ s2 ∙ s1 in
      let twelve : written ≡ 12 = ground arith in
      let same = is_hello_fields fields hello in
      let read : unpack Order.little usbhostfs_command_header bytes ≡ some fields =
        unpacked_fields bytes fields unpacked in
      let packed =
        pack-unpack Order.little usbhostfs_command_header bytes small (ground arith) read in
      (
        ground (arith, packed_hello),
        ap (λ (w : World S). w.trace) (sym last)
            ∙ called
            ∙ ap₂
                (λ (n : ℕ) (w : World S).
                  write_to usbhostfs_command_endpoint usbhostfs_hello 1000 (gives n) ∷ w.trace)
                twelve start,
      )

  replied-returns :
      (timeout : ℕ) (bytes : List ℕ) (u v : World S) {first : Option (List ℕ)} {rest : List Io}
      → All IsByte bytes
      → u.trace
        ≡ read_from usbhostfs_input_endpoint usbhostfs_read_size timeout (gives bytes) ∷ rest
      → (reply_to_usbhostfs_hello device bytes >> pure none) u ≡ (returns first, v)
      → (before : List Io) → Greeted before first v.trace
  replied-returns timeout bytes u v {first} {rest} small e h before =
      let (x, e1, h1) = >>=-returns (reply_to_usbhostfs_hello device bytes) (λ _. pure none) u h in
      let (hello, t) =
        reply-returns bytes u _ small (λ i. (e1 i, (reply_to_usbhostfs_hello device bytes u).1)) in
      let (nothing, same) = pure-returns _ _ h1 in
      let shape : v.trace
          ≡ write_to usbhostfs_command_endpoint usbhostfs_hello 1000 (gives 12)
            ∷ read_from usbhostfs_input_endpoint usbhostfs_read_size timeout (gives usbhostfs_hello)
            ∷ rest =
        ap (λ (w : World S). w.trace) (sym same) ∙ t ∙ cc in
      rw (← nothing, shape) (by_hello timeout rest)

  -- What was read is handed on, or an empty read is followed by what comes again.
  after_read :
      (timeout : ℕ) (w v : World S) (again : M S (Option (List ℕ)))
      → GivesBytes device
      → (bytes : List ℕ) {first : Option (List ℕ)} (before : List Io)
      → (read device usbhostfs_input_endpoint usbhostfs_read_size timeout w).0 ≡ returns bytes
      → (if is_empty bytes then again else reply_to_usbhostfs_hello device bytes >> pure none)
          (read device usbhostfs_input_endpoint usbhostfs_read_size timeout w).1
        ≡ (returns first, v)
      → (again (read device usbhostfs_input_endpoint usbhostfs_read_size timeout w).1
            ≡ (returns first, v)
          → Greeted before first v.trace)
      → Greeted before first v.trace
  after_read timeout w v again give [] before e h more = more h
  after_read timeout w v again give (b ∷ bytes) before e h more =
      let (called, answered) = read-returns device _ _ timeout w e in
      replied-returns timeout (b ∷ bytes) _ v (give w.trace (b ∷ bytes) answered) called h before

  await_hello-Greeted :
      (attempts : ℕ) (w v : World S)
      → GivesBytes device
      → {first : Option (List ℕ)} (before : List Io)
      → await_hello device attempts w ≡ (returns first, v)
      → Greeted before first v.trace
  unfolding await_hello
  await_hello-Greeted zero w v give before h = cc
  await_hello-Greeted (suc attempts) w v give before h =
      let (bytes, e, rest) =
        >>=-returns (read device usbhostfs_input_endpoint usbhostfs_read_size 250) _ w h in
      after_read 250 w v (await_hello device attempts) give bytes before e rest
        (λ k. await_hello-Greeted attempts _ v give before k)

  take_existing-Greeted :
      (bytes : List ℕ) (w v : World S)
      → GivesBytes device
      → {first : Option (List ℕ)}
      → (read device usbhostfs_input_endpoint usbhostfs_read_size 100 w).0 ≡ returns bytes
      → is_empty bytes ≡ false
      → take_existing device bytes
          (read device usbhostfs_input_endpoint usbhostfs_read_size 100 w).1
        ≡ (returns first, v)
      → Greeted w.trace first v.trace
  unfolding take_existing
  take_existing-Greeted [] w v give e full h = cc
  take_existing-Greeted (b ∷ bytes) w v give {first} e full h =
      let (called, answered) = read-returns device _ _ 100 w e in
      let (is_frame, e1, h1) = >>=-returns _ _ _ h in
      let (frame, s1) = or_escape-returns _ _ e1 in
      elim (Bool-cases is_frame) [
        | inl yes_frame ↦
            let held : pure (some (b ∷ bytes)) _ ≡ (returns first, v) = rw yes_frame at h1 in
            let (same, kept) = pure-returns _ _ held in
            let shape = ap (λ (u : World S). u.trace) (sym kept ∙ s1) ∙ called in
            rw (← same, shape) (by_frame (b ∷ bytes) (frame ∙ ap ok yes_frame))
        | inr no_frame ↦
            let replied = rw no_frame at h1 in
            replied-returns 100 (b ∷ bytes) _ v (give w.trace (b ∷ bytes) answered)
              (ap (λ (u : World S). u.trace) s1 ∙ called) replied w.trace
      ]

  -- The handshake with a device that hands out bytes succeeds in two ways only: the first transfer
  -- is a frame of an active session, which is kept, and nothing else was done; or the last two
  -- calls read exactly the HELLO and wrote a whole HELLO back.
  pub perform_usbhostfs_handshake-Greeted :
      (w v : World S)
      → GivesBytes device
      → (first : Option (List ℕ)) → perform_usbhostfs_handshake device w ≡ (returns first, v)
      → Greeted w.trace first v.trace
  unfolding perform_usbhostfs_handshake send_probe
  perform_usbhostfs_handshake-Greeted w v give first h =
      let (bytes, e, rest) =
        >>=-returns (read device usbhostfs_input_endpoint usbhostfs_read_size 100) _ w h in
      elim (Bool-cases (is_empty bytes)) [
        | inl empty ↦
            let probed = rw empty at rest in
            let (written, e1, h1) = >>=-returns _ _ _ probed in
            let (x, e2, h2) = >>=-returns _ _ _ h1 in
            await_hello-Greeted usbhostfs_handshake_attempts _ v give w.trace h2
        | inr full ↦ take_existing-Greeted bytes w v give e full (rw full at rest)
      ]
