-- ===== src/Usb/Source/Payloads.antt =====
-- What a session of `UsbPacketSource` hands to its callback, from the handshake to its end.
use niw_pspto_pc.Base.{
  ℕ, zero, suc, ◌≡◌, refl, sym, ap, ◌∙◌, Bool, false, List, [], ◌∷◌, ◌++◌, Option, none, some, All,
  Bool-cases, inl, inr, arith, if◌then◌else◌,
}
use mathlib.Core.Path.{subst}
use niw_pspto_pc.Struct.{IsByte}
use niw_pspto_pc.Usb.Frame.{
  usbhostfs_input_endpoint, usbhostfs_command_endpoint, usbhostfs_read_size, usbhostfs_hello,
  usbhostfs_probe, usbhostfs_handshake_attempts,
}
use niw_pspto_pc.Usb.Device.{
  UsbDevice, open_device, call_connected, World, record_io, ◌>>=◌, ◌>>◌, returns, pure, read, write,
  close,
}
use niw_pspto_pc.Usb.Device.Logic.{
  Keeps, >>=-returns, or_escape-returns, disconnect_unless-returns, pure-returns,
}
use niw_pspto_pc.Usb.Handshake.{
  is_empty, reply_to_usbhostfs_hello, await_hello, take_existing, perform_usbhostfs_handshake,
  send_probe,
}
use niw_pspto_pc.Usb.Handshake.Laws.{GivesBytes, reply-returns}
use niw_pspto_pc.Usb.Source.{Callbacks, call_hook, serve, end_session, run_session}
use niw_pspto_pc.Usb.Source.Deliveries.{
  after_prefix, payload_of, arrived, delivered, pending, IsDelivered, read_lem, write-IsDelivered,
  read_device-IsDelivered,
}

hello_is_no_frame : payload_of usbhostfs_hello ≡ []
unfolding after_prefix
hello_is_no_frame = refl

nothing_is_no_frame : payload_of [] ≡ []
unfolding after_prefix
nothing_is_no_frame = refl

module _ {S : Type 0} (device : UsbDevice) (range : GivesBytes device)
    (callbacks : Callbacks S) where
  -- What a handshake kept is all that was not handed on.
  record IsKept (first : Option (List ℕ)) (w : World S) : Type 0 where
    pub is_bytes : (bytes : List ℕ) → first ≡ some bytes → All IsByte bytes
    pub same : arrived w.trace ≡ pending first ++ delivered w.trace

  replied-IsKept :
      (bytes : List ℕ) (u v : World S) {first : Option (List ℕ)}
      → All IsByte bytes
      → arrived u.trace ≡ payload_of bytes ++ delivered u.trace
      → (reply_to_usbhostfs_hello device bytes >> pure none) u ≡ (returns first, v)
      → IsKept first v
  replied-IsKept bytes u v is_bytes waits h =
      let (x, e1, h1) = >>=-returns (reply_to_usbhostfs_hello device bytes) (λ _. pure none) u h in
      let (hello, written) =
        reply-returns device bytes u _ is_bytes
          (λ i. (e1 i, (reply_to_usbhostfs_hello device bytes u).1)) in
      let (nothing, same) = pure-returns _ _ h1 in
      let shape = ap (λ (w : World S). w.trace) (sym same) ∙ written in
      let quiet = ap payload_of hello ∙ hello_is_no_frame in
      rw (← nothing) (record { is_bytes = λ all e. cc; same = ground (arith, shape, waits, quiet) })

  await_hello-IsKept :
      (attempts : ℕ) (w v : World S) {first : Option (List ℕ)}
      → IsDelivered w
      → await_hello device attempts w ≡ (returns first, v)
      → IsKept first v
  unfolding await_hello
  await_hello-IsKept zero w v d h = cc
  await_hello-IsKept (suc attempts) w v {first} d h =
      let (bytes, e, rest) =
        >>=-returns (read device usbhostfs_input_endpoint usbhostfs_read_size 250) _ w h in
      let (is_bytes, waits) = read_lem device range callbacks 250 w bytes d e in
      after bytes (λ u q k. await_hello-IsKept attempts u v q k) is_bytes waits rest
    where
      after :
          (bytes : List ℕ)
          → ((u : World S)
              → IsDelivered u
              → await_hello device attempts u ≡ (returns first, v)
              → IsKept first v)
          → All IsByte bytes
          → arrived (read device usbhostfs_input_endpoint usbhostfs_read_size 250 w).1.trace
            ≡ payload_of bytes
              ++ delivered (read device usbhostfs_input_endpoint usbhostfs_read_size 250 w).1.trace
          → (if is_empty bytes
                then await_hello device attempts
                else reply_to_usbhostfs_hello device bytes >> pure none)
              (read device usbhostfs_input_endpoint usbhostfs_read_size 250 w).1
            ≡ (returns first, v)
          → IsKept first v
      after [] more is_bytes waits rest =
          more _ (record { same = rw nothing_is_no_frame at waits }) rest
      after (b ∷ bytes) more is_bytes waits rest =
          replied-IsKept (b ∷ bytes) _ v is_bytes waits rest

  take_existing-IsKept :
      (bytes : List ℕ) (u v : World S) {first : Option (List ℕ)}
      → All IsByte bytes
      → arrived u.trace ≡ payload_of bytes ++ delivered u.trace
      → take_existing device bytes u ≡ (returns first, v)
      → IsKept first v
  unfolding take_existing
  take_existing-IsKept bytes u v {first} is_bytes waits h =
      let (is_frame, e1, h1) = >>=-returns _ _ u h in
      let (frame, s1) = or_escape-returns _ _ e1 in
      elim (Bool-cases is_frame) [
        | inl yes_frame ↦
            let held : pure (some bytes) _ ≡ (returns first, v) = rw yes_frame at h1 in
            let (same, kept) = pure-returns _ _ held in
            let unchanged = ap (λ (w : World S). w.trace) (sym s1 ∙ kept) in
            rw (← same) (record {
              is_bytes = λ all e. let exact : bytes ≡ all = cc in subst (All IsByte) exact is_bytes;
              same = rw (← unchanged) waits;
            })
        | inr no_frame ↦ replied-IsKept bytes _ v is_bytes (rw s1 waits) (rw no_frame at h1)
      ]

  handshake-IsKept :
      (w v : World S) (first : Option (List ℕ))
      → IsDelivered w
      → perform_usbhostfs_handshake device w ≡ (returns first, v)
      → IsKept first v
  unfolding perform_usbhostfs_handshake send_probe
  handshake-IsKept w v first d h =
      let (bytes, e, rest) =
        >>=-returns (read device usbhostfs_input_endpoint usbhostfs_read_size 100) _ w h in
      let (is_bytes, waits) = read_lem device range callbacks 100 w bytes d e in
      after bytes is_bytes waits rest
    where
      after :
          (bytes : List ℕ)
          → All IsByte bytes
          → arrived (read device usbhostfs_input_endpoint usbhostfs_read_size 100 w).1.trace
            ≡ payload_of bytes
              ++ delivered (read device usbhostfs_input_endpoint usbhostfs_read_size 100 w).1.trace
          → (if is_empty bytes then send_probe device else take_existing device bytes)
              (read device usbhostfs_input_endpoint usbhostfs_read_size 100 w).1
            ≡ (returns first, v)
          → IsKept first v
      after [] is_bytes waits rest =
          let (written, e1, h1) =
            >>=-returns (write device usbhostfs_command_endpoint usbhostfs_probe 1000) _ _ rest in
          let (x, e2, h2) = >>=-returns _ _ _ h1 in
          let (whole, s2) = disconnect_unless-returns _ _ _ e2 in
          let quiet : IsDelivered
              (read device usbhostfs_input_endpoint usbhostfs_read_size 100 w).1 =
            record { same = rw nothing_is_no_frame at waits } in
          let probed =
            (write-IsDelivered device range callbacks usbhostfs_command_endpoint 1000
                usbhostfs_probe).kept
              _ quiet in
          await_hello-IsKept usbhostfs_handshake_attempts _ v (subst IsDelivered (sym s2) probed) h2
      after (b ∷ bytes) is_bytes waits rest =
          take_existing-IsKept (b ∷ bytes) _ v is_bytes waits rest

  connected :
      (v : World S) (s : S)
      → callbacks.on_connected v.user ≡ some s
      → call_hook call_connected callbacks.on_connected v
        ≡ (returns tt, record (record_io call_connected v) { user = s })
  unfolding call_hook
  connected v s went = rw (went, call_hook) refl

  serve-IsDelivered :
      (rounds : ℕ) (w v : World S) (first : Option (List ℕ)) (s : S)
      → IsDelivered w
      → perform_usbhostfs_handshake device w ≡ (returns first, v)
      → callbacks.on_connected v.user ≡ some s
      → IsDelivered (serve callbacks device rounds w).1
  unfolding serve call_hook ◌>>=◌
  serve-IsDelivered rounds w v first s d greeted went =
      let k = handshake-IsKept w v first d greeted in
      rw (greeted, connected v s went)
        (read_device-IsDelivered device range callbacks first rounds _ k.is_bytes k.same)

  end_session-IsDelivered :
      (interrupted : Bool) → Keeps IsDelivered (end_session callbacks interrupted)
  unfolding end_session close call_hook
  end_session-IsDelivered interrupted = record {
    kept = λ w d. record { same = ground (arith, d.same) };
  }

  -- A session hands on exactly what arrives: where the handshake has succeeded and the connection was told without
  -- an exception, whatever bytes the device answers with and the callback does, replies and exceptions included,
  -- at the end of the session the callback has been given the payload of each transfer read since the device was
  -- opened that begins with the header of the channel, the one kept from the handshake too, each once and in the
  -- order in which they were read, and nothing else.
  pub run_session_delivers :
      (rounds : ℕ) (interrupted : Bool) (w v : World S) (first : Option (List ℕ)) (s : S)
      → perform_usbhostfs_handshake device
          (record w { trace = open_device ∷ w.trace; closed = false })
        ≡ (returns first, v)
      → callbacks.on_connected v.user ≡ some s
      → delivered (run_session callbacks device rounds interrupted w).0.trace
        ≡ arrived (run_session callbacks device rounds interrupted w).0.trace
  unfolding run_session
  run_session_delivers rounds interrupted w v first s greeted went =
      let begun : World S = record w { trace = open_device ∷ w.trace; closed = false } in
      let served = serve-IsDelivered rounds begun v first s (record { same = refl }) greeted went in
      sym
        ((end_session-IsDelivered interrupted).kept (serve callbacks device rounds begun).1
          served).same
