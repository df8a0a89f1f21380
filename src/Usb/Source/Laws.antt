-- ===== src/Usb/Source/Laws.antt =====
-- The sessions of the source: how they are bracketed, and what they hand on.

use niw_pspto_pc.Base.{
  ℕ, zero, suc, ◌≡◌, refl, Bool, true, false, List, [], ◌∷◌, Option, none, some, Option-cases, inl,
  inr, arith,
}
use niw_pspto_pc.Usb.Device.{
  UsbDevice, Io, open_device, write_to, read_from, dispose_resources, call_connected, call_packet,
  call_disconnected, start_repair, log_unavailable, wait_reconnect, World, M, ◌>>◌, pure, record_io,
  read, write,
}
use niw_pspto_pc.Usb.Device.Logic.{
  Keeps, >>=-Keeps, if-Keeps, pure-Keeps, disconnect_unless-Keeps, or_escape-Keeps,
}
use niw_pspto_pc.Usb.Handshake.{
  is_empty, reply_to_usbhostfs_hello, await_hello, take_existing, send_probe,
  perform_usbhostfs_handshake,
}
use niw_pspto_pc.Usb.Source.{
  Reaction, done, lets_out, raises, sends, Callbacks, is_sent, send_reply, react, deliver,
  take_frame, read_frames, read_device, call_hook, serve,
}

-- Where a trace stands: no session, a device open, a device disposed of and its end not yet told;
-- `broken` if a device was opened in a session, disposed of twice, or its end was told too soon or twice.
pub data Stage : Type 0 where
  between opened disposed broken : Stage

abbrev pub next_stage : Io → Stage → Stage
next_stage open_device between = opened
next_stage open_device opened = broken
next_stage open_device disposed = broken
next_stage open_device broken = broken
next_stage dispose_resources between = broken
next_stage dispose_resources opened = disposed
next_stage dispose_resources disposed = broken
next_stage dispose_resources broken = broken
next_stage call_disconnected between = broken
next_stage call_disconnected opened = broken
next_stage call_disconnected disposed = between
next_stage call_disconnected broken = broken
next_stage (write_to endpoint bytes timeout answer) stage = stage
next_stage (read_from endpoint size timeout answer) stage = stage
next_stage call_connected stage = stage
next_stage (call_packet payload) stage = stage
next_stage start_repair stage = stage
next_stage log_unavailable stage = stage
next_stage wait_reconnect stage = stage

abbrev pub stage_of : List Io → Stage
stage_of [] = between
stage_of (io ∷ trace) = next_stage io (stage_of trace)

-- The repairs of the driver that were started.
abbrev pub repairs : List Io → ℕ
repairs [] = 0
repairs (start_repair ∷ trace) = suc (repairs trace)
repairs (io ∷ trace) = repairs trace

-- The calls made while a device is open.
abbrev pub is_inner : Io → Bool
is_inner (write_to endpoint bytes timeout answer) = true
is_inner (read_from endpoint size timeout answer) = true
is_inner call_connected = true
is_inner (call_packet payload) = true
is_inner io = false

-- Every end of a reaction, whatever its replies came to.
abbrev pub AllEnds : {S : Type 0} → (S → Type 0) → Reaction S → Type 0
AllEnds Q (done s) = Q s
AllEnds Q (lets_out why s) = Q s
AllEnds Q (raises s) = Q s
AllEnds Q (sends payload rest) = (sent : Bool) → AllEnds Q (rest sent)

-- What holds of the trace and of the callbacks' state while a device is open.
pub record Within {S : Type 0} (T : List Io → Type 0) (Q : S → Type 0) (w : World S) : Type 0 where
  pub held : T w.trace
  pub unclosed : w.closed ≡ false
  pub user : Q w.user

-- A property of traces that inner calls keep, and one of the state that the callbacks keep.
module _ {S : Type 0} (T : List Io → Type 0) (Q : S → Type 0)
    (inner : (io : Io) (trace : List Io) → is_inner io ≡ true → T trace → T (io ∷ trace))
    (device : UsbDevice) where
  read-Within : (endpoint size timeout : ℕ) → Keeps (Within T Q) (read device endpoint size timeout)
  unfolding read
  read-Within endpoint size timeout = record {
    kept = λ w h.
        let k =
          inner (read_from endpoint size timeout (device.read_answer w.trace)) w.trace refl
            h.held in
        record {
          held = rw (← read_trace endpoint size timeout w) k;
          unclosed = ground (arith, h.unclosed);
          user = rw (← read_user endpoint size timeout w) h.user;
        };
  }
    where
      read_trace :
          (endpoint size timeout : ℕ) (w : World S)
          → read_from endpoint size timeout (device.read_answer w.trace) ∷ w.trace
            ≡ (read device endpoint size timeout w).1.trace
      read_trace endpoint size timeout w = ground arith

      read_user :
          (endpoint size timeout : ℕ) (w : World S)
          → w.user ≡ (read device endpoint size timeout w).1.user
      read_user endpoint size timeout w = ground arith

  write-Within :
      (endpoint timeout : ℕ) (bytes : List ℕ)
      → Keeps (Within T Q) (write device endpoint bytes timeout)
  unfolding write
  write-Within endpoint timeout bytes = record {
    kept = λ w h.
        let k =
          inner (write_to endpoint bytes timeout (device.write_answer w.trace bytes)) w.trace refl
            h.held in
        record {
          held = rw (← write_trace endpoint timeout bytes w) k;
          unclosed = ground (arith, h.unclosed);
          user = rw (← write_user endpoint timeout bytes w) h.user;
        };
  }
    where
      write_trace :
          (endpoint timeout : ℕ) (bytes : List ℕ) (w : World S)
          → write_to endpoint bytes timeout (device.write_answer w.trace bytes) ∷ w.trace
            ≡ (write device endpoint bytes timeout w).1.trace
      write_trace endpoint timeout bytes w = ground arith

      write_user :
          (endpoint timeout : ℕ) (bytes : List ℕ) (w : World S)
          → w.user ≡ (write device endpoint bytes timeout w).1.user
      write_user endpoint timeout bytes w = ground arith

  replied-Within :
      {A : Type 0} (a : A) (bytes : List ℕ)
      → Keeps (Within T Q) (reply_to_usbhostfs_hello device bytes >> pure a)
  unfolding reply_to_usbhostfs_hello
  replied-Within a bytes =
      >>=-Keeps
        (>>=-Keeps (disconnect_unless-Keeps _ _) (λ _. >>=-Keeps (or_escape-Keeps _) (λ fields.
          >>=-Keeps (disconnect_unless-Keeps _ _)
            (λ _. >>=-Keeps (write-Within _ _ _) (λ written. disconnect_unless-Keeps _ _)))))
        (λ _. pure-Keeps a)

  await_hello-Within : (attempts : ℕ) → Keeps (Within T Q) (await_hello device attempts)
  unfolding await_hello
  await_hello-Within zero = record { kept = λ w h. h }
  await_hello-Within (suc attempts) = record {
    kept = λ w h.
        let once = >>=-Keeps (read-Within 0x81 512 250) (λ bytes.
          if-Keeps (is_empty bytes) (await_hello-Within attempts) (replied-Within none bytes)) in
        once.kept w h;
  }

  handshake-Within : Keeps (Within T Q) (perform_usbhostfs_handshake device)
  unfolding perform_usbhostfs_handshake send_probe take_existing
  handshake-Within = >>=-Keeps (read-Within _ _ _) (λ existing.
      if-Keeps (is_empty existing)
        (>>=-Keeps (write-Within _ _ _)
          (λ written. >>=-Keeps (disconnect_unless-Keeps _ _) (λ _. await_hello-Within 10)))
        (>>=-Keeps (or_escape-Keeps _)
          (λ is_frame. if-Keeps is_frame (pure-Keeps _) (replied-Within none existing))))

  send_reply-Within : (payload : List ℕ) → Keeps (Within T Q) (send_reply device payload)
  unfolding send_reply
  send_reply-Within payload =
      >>=-Keeps (or_escape-Keeps _)
        (λ bytes. >>=-Keeps (write-Within _ _ _) (λ written. disconnect_unless-Keeps _ _))

  react-Within :
      (reaction : Reaction S) → AllEnds Q reaction → Keeps (Within T Q) (react device reaction)
  unfolding react
  react-Within (done s) ends = record {
    kept = λ w h. record { held = h.held; unclosed = h.unclosed; user = ends };
  }
  react-Within (lets_out why s) ends = record {
    kept = λ w h. record { held = h.held; unclosed = h.unclosed; user = ends };
  }
  react-Within (raises s) ends = record {
    kept = λ w h. record { held = h.held; unclosed = h.unclosed; user = ends };
  }
  react-Within (sends payload rest) ends = record {
    kept = λ w h.
        let sent = is_sent (send_reply device payload w).0 in
        (react-Within (rest sent) (ends sent)).kept (send_reply device payload w).1
          ((send_reply-Within payload).kept w h);
  }

  module _ (callbacks : Callbacks S)
      (reacts : (payload : List ℕ) (s : S) → Q s → AllEnds Q (callbacks.on_packet payload s))
      (connects : (s t : S) → Q s → callbacks.on_connected s ≡ some t → Q t) where
    delivered-Within :
        (decoded : Option (List ℕ))
        → Keeps (Within T Q) (elim decoded as (λ _. M S (Unit {0})) [
          | none ↦ pure tt
          | some payload ↦ deliver callbacks device payload
        ])
    unfolding deliver
    delivered-Within none = pure-Keeps tt
    delivered-Within (some payload) = record {
      kept = λ w h.
          (react-Within (callbacks.on_packet payload w.user) (reacts payload w.user h.user)).kept
            (record_io (call_packet payload) w)
            (record {
              held = inner (call_packet payload) w.trace refl h.held;
              unclosed = h.unclosed;
              user = h.user;
            });
    }

    take_frame-Within : (bytes : List ℕ) → Keeps (Within T Q) (take_frame callbacks device bytes)
    unfolding take_frame
    take_frame-Within bytes = >>=-Keeps (or_escape-Keeps _) (λ decoded. delivered-Within decoded)

    read_frames-Within : (rounds : ℕ) → Keeps (Within T Q) (read_frames callbacks device rounds)
    unfolding read_frames
    read_frames-Within zero = record { kept = λ w h. h }
    read_frames-Within (suc rounds) = record {
      kept = λ w h.
          let once = >>=-Keeps (read-Within 0x81 512 200) (λ bytes.
            if-Keeps (is_empty bytes) (read_frames-Within rounds)
              (>>=-Keeps (take_frame-Within bytes) (λ _. read_frames-Within rounds))) in
          once.kept w h;
    }

    read_device-Within :
        (first : Option (List ℕ)) (rounds : ℕ)
        → Keeps (Within T Q) (read_device callbacks device first rounds)
    unfolding read_device
    read_device-Within none rounds = read_frames-Within rounds
    read_device-Within (some first) rounds =
        >>=-Keeps (take_frame-Within first) (λ _. read_frames-Within rounds)

    connected-Within : Keeps (Within T Q) (call_hook call_connected callbacks.on_connected)
    unfolding call_hook
    connected-Within = record {
      kept = λ w h.
          let told = inner call_connected w.trace refl h.held in
          elim (Option-cases (callbacks.on_connected w.user)) [
            | inl failed ↦
                rw (failed, call_hook)
                  (record { held = told; unclosed = h.unclosed; user = h.user })
            | inr (t, went) ↦
                rw (went, call_hook)
                  (record {
                    held = told;
                    unclosed = h.unclosed;
                    user = connects w.user t h.user went;
                  })
          ];
    }

    pub serve-Within : (rounds : ℕ) → Keeps (Within T Q) (serve callbacks device rounds)
    unfolding serve
    serve-Within rounds =
        >>=-Keeps handshake-Within
          (λ first. >>=-Keeps connected-Within (λ _. read_device-Within first rounds))
