-- ===== src/Usb/Source.antt =====
-- `UsbPacketSource` of pc-server/pc_server/usb_transport.py: the loop that opens devices, shakes
-- hands, and hands every payload to its callback.
pub mod Laws
pub mod Sessions
pub mod Users
pub mod Receiver
pub mod Deliveries
pub mod Payloads
use niw_pspto_pc.Base.{
  ℕ, zero, suc, Bool, true, false, not, ◌||◌, ◌&&◌, List, [], ◌∷◌, Option, none, some, ◌==◌, length,
  if◌then◌else◌,
}
use niw_pspto_pc.Usb.Frame.{
  usbhostfs_async_endpoint, usbhostfs_input_endpoint, usbhostfs_read_size, encode_async_payload,
  decode_async_payload,
}
use niw_pspto_pc.Usb.Device.{
  UsbDevice, Io, open_device, call_connected, call_packet, call_disconnected, start_repair,
  log_unavailable, wait_reconnect, World, M, ◌>>=◌, ◌>>◌, pure, disconnect_unless, or_escape,
  record_io, Disconnect, Outcome, returns, disconnects, escapes, short_async_write, read, write,
  close,
}
use niw_pspto_pc.Usb.Handshake.{is_empty, perform_usbhostfs_handshake}

-- What a callback does with one payload: it sends replies, learns of each whether it was sent (or
-- raised `UsbDisconnectedError`), and ends by returning, by letting a `UsbDisconnectedError` out, or by raising
-- anything else; with its new state.
pub data Reaction (S : Type 0) : Type 0 where
  done : S → Reaction S
  lets_out : Disconnect → S → Reaction S
  raises : S → Reaction S
  sends : List ℕ → (Bool → Reaction S) → Reaction S

-- The callbacks of the source; `none` of a hook is an exception.
pub record Callbacks (S : Type 0) : Type 0 where
  pub on_packet : List ℕ → S → Reaction S
  pub on_connected : S → Option S
  pub on_disconnected : S → Option S

abbrev pub is_sent : {A : Type 0} → Outcome A → Bool
is_sent (returns a) = true
is_sent (disconnects why) = false
is_sent escapes = false

module _ {S : Type 0} where
  -- `send_reply` of `_read_device`
  unfoldable pub send_reply : UsbDevice → List ℕ → M S (Unit {0})
  send_reply device payload = do
    bytes ← or_escape (encode_async_payload payload)
    written ← write device usbhostfs_async_endpoint bytes 1000
    disconnect_unless (written == length bytes) short_async_write

  unfoldable pub react : UsbDevice → Reaction S → M S (Unit {0})
  unfolding send_reply
  react device (done s) w = (returns tt, record w { user = s })
  react device (lets_out why s) w = (disconnects why, record w { user = s })
  react device (raises s) w = (escapes, record w { user = s })
  react device (sends payload rest) w =
      let (outcome, after) = send_reply device payload w in
      react device (rest (is_sent outcome)) after

  -- `self._on_packet(payload, send_reply)`
  unfoldable pub deliver : Callbacks S → UsbDevice → List ℕ → M S (Unit {0})
  unfolding react
  deliver callbacks device payload w =
      react device (callbacks.on_packet payload w.user) (record_io (call_packet payload) w)

  -- `payload = decode_async_payload(data)`, and the callback where there is one.
  unfoldable pub take_frame : Callbacks S → UsbDevice → List ℕ → M S (Unit {0})
  unfolding deliver
  take_frame callbacks device bytes = do
    decoded ← or_escape (decode_async_payload bytes)
    elim decoded [ none ↦ pure tt | some payload ↦ deliver callbacks device payload ]

  -- The reading loop, which finds the stop event set after `rounds` rounds.
  unfoldable pub read_frames : Callbacks S → UsbDevice → ℕ → M S (Unit {0})
  unfolding take_frame
  read_frames callbacks device zero w = (returns tt, w)
  read_frames callbacks device (suc rounds) w =
      (do
        bytes ← read device usbhostfs_input_endpoint usbhostfs_read_size 200
        let again = read_frames callbacks device rounds
        if is_empty bytes then again else take_frame callbacks device bytes >> again)
        w

  -- `_read_device`
  unfoldable pub read_device : Callbacks S → UsbDevice → Option (List ℕ) → ℕ → M S (Unit {0})
  unfolding take_frame read_frames
  read_device callbacks device none rounds = read_frames callbacks device rounds
  read_device callbacks device (some first) rounds =
      take_frame callbacks device first >> read_frames callbacks device rounds

  -- A hook, and its exception.
  unfoldable pub call_hook : Io → (S → Option S) → M S (Unit {0})
  call_hook io hook w = elim (hook w.user) [
    | none ↦ (escapes, record_io io w)
    | some s ↦ (returns tt, record (record_io io w) { user = s })
  ]

  -- The `try` of `run`.
  unfoldable pub serve : Callbacks S → UsbDevice → ℕ → M S (Unit {0})
  unfolding perform_usbhostfs_handshake call_hook read_device
  serve callbacks device rounds = do
    first ← perform_usbhostfs_handshake device
    call_hook call_connected callbacks.on_connected
    read_device callbacks device first rounds

-- How `backend.open()` comes out in one round of `run`: `UsbUnavailableError`, for the driver's access
-- or not; no device; any other exception, which leaves `run`; or a device, with the rounds of reading until the stop event is set, and whether
-- `request_stop` closes the device before the `finally` does.
pub data Attempt : Type 0 where
  unavailable : Bool → Attempt
  no_device : Attempt
  opening_crashes : Attempt
  found_device : UsbDevice → ℕ → Bool → Attempt

pub record Source (S : Type 0) : Type 0 where
  pub runtime_warning_logged : Bool
  pub driver_repair_attempted : Bool
  pub world : World S

-- How a round ends: the loop goes on, finds the stop event set, or an exception leaves `run`.
pub data Round : Type 0 where
  goes_on stopped crashed : Round

abbrev pub round_of : Outcome (Unit {0}) → Round
round_of (returns x) = stopped
round_of (disconnects why) = goes_on
round_of escapes = crashed

-- An exception of the hook in the `finally` leaves `run`.
abbrev pub finish_round : Outcome (Unit {0}) → Round → Round
finish_round (returns x) round = round
finish_round (disconnects why) round = crashed
finish_round escapes round = crashed

module _ {S : Type 0} where
  -- The `finally` of `run`.
  unfoldable pub end_session : Callbacks S → Bool → M S (Unit {0})
  unfolding close call_hook
  end_session callbacks interrupted w =
      call_hook call_disconnected callbacks.on_disconnected
        (close (if interrupted then close w else w))

  -- A round with a device.
  unfoldable pub run_session : Callbacks S → UsbDevice → ℕ → Bool → World S → World S × Round
  unfolding serve end_session
  run_session callbacks device rounds interrupted w =
      let (outcome, served) =
        serve callbacks device rounds
          (record w { trace = open_device ∷ w.trace; closed = false }) in
      let (hooked, ended) = end_session callbacks interrupted served in
      (ended, finish_round hooked (round_of outcome))

  -- The handler of `UsbUnavailableError`; an exception of the repair is swallowed.
  unfoldable pub report_unavailable : Bool → Source S → Source S
  report_unavailable driver_access s =
      let repaired =
        if driver_access && not s.driver_repair_attempted
        then record s { driver_repair_attempted = true; world = record_io start_repair s.world }
        else s in
      let logged = if repaired.runtime_warning_logged then repaired else record repaired {
        runtime_warning_logged = true;
        world = record_io log_unavailable repaired.world;
      } in
      record logged { world = record_io wait_reconnect logged.world }

  -- One round of the loop of `run`.
  unfoldable pub run_attempt : Callbacks S → Attempt → Source S → Source S × Round
  unfolding run_session report_unavailable
  run_attempt callbacks (unavailable driver_access) s =
      (report_unavailable driver_access s, goes_on)
  run_attempt callbacks no_device s =
      (record s { world = record_io wait_reconnect s.world }, goes_on)
  run_attempt callbacks opening_crashes s = (s, crashed)
  run_attempt callbacks (found_device d rounds interrupted) s =
      let (world, round) = run_session callbacks d rounds interrupted s.world in
      (record s { runtime_warning_logged = false; world = world }, round)

  -- `run`, with the outcomes of `backend.open()` until the stop event is set.
  unfoldable pub run : Callbacks S → List Attempt → Source S → Source S
  unfolding run_attempt
  run callbacks [] s = s
  run callbacks (attempt ∷ attempts) s =
      let (after, round) = run_attempt callbacks attempt s in
      let rest = run callbacks attempts after in
      elim round [ goes_on ↦ rest | stopped ↦ after | crashed ↦ after ]

-- `UsbPacketSource(...)`
abbrev pub new_source : {S : Type 0} → S → Source S
new_source s = record {
  runtime_warning_logged = false;
  driver_repair_attempted = false;
  world = record { trace = []; closed = false; user = s };
}
