-- ===== src/Usb/Source/Deliveries.antt =====
-- What the reading loop of `UsbPacketSource` hands to its callback, against the transfers that it read.
use niw_pspto_pc.Base.{
  ℕ, zero, suc, ◌≡◌, ◌≢◌, refl, sym, ap, ◌∙◌, List, [], ◌∷◌, ◌++◌, Option, none, some, ◌==◌, All,
  Option-cases, inl, inr, arith, if◌then◌else◌,
}
use niw_pspto_pc.Struct.{IsByte}
use niw_pspto_pc.Protocol.{Result, ok, err}
use niw_pspto_pc.Usb.Frame.{usbhostfs_input_endpoint, usbhostfs_read_size, decode_async_payload}
use niw_pspto_pc.Usb.Frame.Laws.{
  async_header, encode_async_payload_lem, decode_async_payload-encode_async_payload,
  encode_async_payload-decode_async_payload,
}
use niw_pspto_pc.Usb.Device.{
  UsbDevice, Io, Answer, gives, fails, open_device, read_from, call_packet, World, M, ◌>>=◌, ◌>>◌,
  continue_with, Outcome, returns, disconnects, escapes, pure, record_io, read, write, or_escape,
}
use niw_pspto_pc.Usb.Device.Logic.{
  Keeps, >>=-Keeps, continue_with-Keeps, or_escape-Keeps, disconnect_unless-Keeps,
}
use niw_pspto_pc.Usb.Handshake.{is_empty}
use niw_pspto_pc.Usb.Handshake.Laws.{GivesBytes}
use niw_pspto_pc.Usb.Source.{
  Reaction, done, lets_out, raises, sends, Callbacks, is_sent, send_reply, react, deliver,
  take_frame, read_frames, read_device,
}

-- What is left behind a prefix.
unfoldable pub after_prefix : List ℕ → List ℕ → Option (List ℕ)
after_prefix [] bytes = some bytes
after_prefix (p ∷ prefix) [] = none
after_prefix (p ∷ prefix) (b ∷ bytes) =
    let rest = after_prefix prefix bytes in if p == b then rest else none

-- The payload of a transfer that starts with the eight bytes of the channel's header.
abbrev pub payload_of : List ℕ → List (List ℕ)
payload_of bytes = elim (after_prefix async_header bytes) [
  | none ↦ []
  | some payload ↦ payload ∷ []
]

-- The payloads among the transfers that were read since the device was opened, and those handed to the
-- callback since then; the latest first.
abbrev pub arrived : List Io → List (List ℕ)
arrived [] = []
arrived (open_device ∷ trace) = []
arrived (read_from endpoint size timeout (gives bytes) ∷ trace) = payload_of bytes ++ arrived trace
arrived (_ ∷ trace) = arrived trace

abbrev pub delivered : List Io → List (List ℕ)
delivered [] = []
delivered (open_device ∷ trace) = []
delivered (call_packet payload ∷ trace) = payload ∷ delivered trace
delivered (_ ∷ trace) = delivered trace

-- The payload that waits in the transfer kept from the handshake.
abbrev pub pending : Option (List ℕ) → List (List ℕ)
pending none = []
pending (some bytes) = payload_of bytes

strip_lem :
    (prefix bytes rest : List ℕ) → after_prefix prefix bytes ≡ some rest → bytes ≡ prefix ++ rest
unfolding after_prefix
strip_lem [] bytes rest h = cc
strip_lem (p ∷ prefix) [] rest h = cc
strip_lem (p ∷ prefix) (b ∷ bytes) rest h = ground (arith, strip_lem prefix bytes rest)

after_prefix-append : (prefix rest : List ℕ) → after_prefix prefix (prefix ++ rest) ≡ some rest
unfolding after_prefix
after_prefix-append [] rest = refl
after_prefix-append (p ∷ prefix) rest = ground (arith, after_prefix-append prefix rest)

-- What `decode_async_payload` makes of bytes.
found : Result (Option (List ℕ)) → List (List ℕ)
found (ok (some payload)) = payload ∷ []
found decoded = []

found-decode :
    (bytes : List ℕ) → All IsByte bytes → found (decode_async_payload bytes) ≡ payload_of bytes
unfolding found decode_async_payload after_prefix
found-decode bytes range = elim (Option-cases (after_prefix async_header bytes)) [
  | inr (payload, e) ↦
      let (coded, same, n, back) = decode_async_payload-encode_async_payload payload in
      let whole = strip_lem async_header bytes payload e in
      let decoded : decode_async_payload bytes ≡ ok (some payload) =
        ground (arith, encode_async_payload_lem payload) in
      rw (decoded, e) refl
  | inl e ↦ rw e (nothing (decode_async_payload bytes) refl e)
]
  where
    nothing :
        (decoded : Result (Option (List ℕ)))
        → decode_async_payload bytes ≡ decoded
        → after_prefix async_header bytes ≡ none
        → found decoded ≡ []
    nothing (ok none) d e = refl
    nothing (err x) d e = refl
    nothing (ok (some payload)) d e =
        let coded = encode_async_payload-decode_async_payload bytes payload range d in
        let whole : async_header ++ payload ≡ bytes =
          ground (arith, encode_async_payload_lem payload) in
        let s = after_prefix-append async_header payload in
        absurd (
          let clash : some payload ≡ none =
            sym s ∙ ap (λ (b : List ℕ). after_prefix async_header b) whole ∙ e in
          cc)

module _ {S : Type 0} where
  -- Every payload that has been read so far was handed on, in order.
  pub record IsDelivered (w : World S) : Type 0 where
    pub same : arrived w.trace ≡ delivered w.trace

  module _ (device : UsbDevice) (range : GivesBytes device) (callbacks : Callbacks S) where
    pub write-IsDelivered :
        (endpoint timeout : ℕ) (bytes : List ℕ)
        → Keeps IsDelivered (write device endpoint bytes timeout)
    unfolding write
    write-IsDelivered endpoint timeout bytes = record {
      kept = λ w h. record { same = ground (arith, h.same) };
    }

    send_reply-IsDelivered : (payload : List ℕ) → Keeps IsDelivered (send_reply device payload)
    unfolding send_reply
    send_reply-IsDelivered payload =
        >>=-Keeps (or_escape-Keeps _)
          (λ bytes. >>=-Keeps (write-IsDelivered _ _ _) (λ written. disconnect_unless-Keeps _ _))

    react-IsDelivered : (reaction : Reaction S) → Keeps IsDelivered (react device reaction)
    unfolding react
    react-IsDelivered (done s) = record { kept = λ w h. record { same = h.same } }
    react-IsDelivered (lets_out why s) = record { kept = λ w h. record { same = h.same } }
    react-IsDelivered (raises s) = record { kept = λ w h. record { same = h.same } }
    react-IsDelivered (sends payload rest) = record {
      kept = λ w h.
          (react-IsDelivered (rest (is_sent (send_reply device payload w).0))).kept
            (send_reply device payload w).1 ((send_reply-IsDelivered payload).kept w h);
    }

    -- What a transfer holds is handed on, whatever the callback does.
    handed_on :
        (decoded : Result (Option (List ℕ))) (w : World S)
        → arrived w.trace ≡ found decoded ++ delivered w.trace
        → IsDelivered
            ((or_escape decoded >>= λ payload. elim payload as (λ _. M S (Unit {0})) [
              | none ↦ pure tt
              | some p ↦ deliver callbacks device p
            ])
              w).1
    unfolding found ◌>>=◌ or_escape pure deliver
    handed_on (ok none) w h = record { same = h }
    handed_on (err e) w h = record { same = h }
    handed_on (ok (some payload)) w h =
        (react-IsDelivered (callbacks.on_packet payload w.user)).kept
          (record_io (call_packet payload) w) (record { same = h })

    take_frame-IsDelivered :
        (bytes : List ℕ) (w : World S)
        → All IsByte bytes
        → arrived w.trace ≡ payload_of bytes ++ delivered w.trace
        → IsDelivered (take_frame callbacks device bytes w).1
    unfolding take_frame
    take_frame-IsDelivered bytes w is_bytes h = handed_on (decode_async_payload bytes) w (
        h
        ∙ ap (λ (all : List (List ℕ)). all ++ delivered w.trace)
            (sym (found-decode bytes is_bytes)))

    pub read_lem :
        (timeout : ℕ) (w : World S) (bytes : List ℕ)
        → IsDelivered w
        → (read device usbhostfs_input_endpoint usbhostfs_read_size timeout w).0 ≡ returns bytes
        → All IsByte bytes
          × (arrived (read device usbhostfs_input_endpoint usbhostfs_read_size timeout w).1.trace
              ≡ payload_of bytes
                ++ delivered
                    (read device usbhostfs_input_endpoint usbhostfs_read_size timeout w).1.trace)
    unfolding read after_prefix
    read_lem timeout w bytes h e = by_answer (device.read_answer w.trace) refl
      where
        by_answer :
            (answer : Answer (List ℕ))
            → device.read_answer w.trace ≡ answer
            → All IsByte bytes
              × (arrived
                    (read device usbhostfs_input_endpoint usbhostfs_read_size timeout w).1.trace
                  ≡ payload_of bytes
                    ++ delivered
                        (read device usbhostfs_input_endpoint usbhostfs_read_size timeout
                          w).1.trace)
        by_answer (gives some_bytes) given =
            let same : some_bytes ≡ bytes = ground arith in
            (range w.trace bytes (given ∙ ap gives same), ground (arith, h.same, same))
        by_answer (fails fault) given =
            let nothing : [] ≡ bytes = ground arith in rw (← nothing) (tt, ground (arith, h.same))

    read_failed :
        (w : World S)
        → IsDelivered w
        → ((bytes : List ℕ)
            → (read device usbhostfs_input_endpoint usbhostfs_read_size 200 w).0 ≢ returns bytes)
        → IsDelivered (read device usbhostfs_input_endpoint usbhostfs_read_size 200 w).1
    unfolding read
    read_failed w h failed = by_answer (device.read_answer w.trace) refl
      where
        by_answer :
            (answer : Answer (List ℕ))
            → device.read_answer w.trace ≡ answer
            → IsDelivered (read device usbhostfs_input_endpoint usbhostfs_read_size 200 w).1
        by_answer (gives bytes) given = absurd (failed bytes (ground arith))
        by_answer (fails fault) given = record { same = ground (arith, h.same) }

    -- One round of the loop behind its read.
    round_lem :
        (again : M S (Unit {0})) (outcome : Outcome (List ℕ)) (w : World S)
        → Keeps IsDelivered again
        → ((bytes : List ℕ)
            → outcome ≡ returns bytes
            → All IsByte bytes × (arrived w.trace ≡ payload_of bytes ++ delivered w.trace))
        → (((bytes : List ℕ) → outcome ≢ returns bytes) → IsDelivered w)
        → IsDelivered
            (continue_with outcome w (λ bytes.
              if is_empty bytes then again else take_frame callbacks device bytes >> again)).1
    unfolding after_prefix ◌>>=◌
    round_lem again (returns []) w h taken failed = h.kept w (record { same = (taken [] refl).1 })
    round_lem again (returns (b ∷ bytes)) w h taken failed =
        let (is_bytes, waits) = taken (b ∷ bytes) refl in
        continue_with-Keeps IsDelivered _ _ (λ _. again) (λ _. h)
          (take_frame-IsDelivered (b ∷ bytes) w is_bytes waits)
    round_lem again (disconnects why) w h taken failed = failed (λ bytes e. cc)
    round_lem again escapes w h taken failed = failed (λ bytes e. cc)

    read_frames-IsDelivered : (rounds : ℕ) → Keeps IsDelivered (read_frames callbacks device rounds)
    unfolding read_frames ◌>>=◌
    read_frames-IsDelivered zero = record { kept = λ w h. h }
    read_frames-IsDelivered (suc rounds) = record {
      kept = λ w h.
          round_lem (read_frames callbacks device rounds)
            (read device usbhostfs_input_endpoint usbhostfs_read_size 200 w).0
            (read device usbhostfs_input_endpoint usbhostfs_read_size 200 w).1
            (read_frames-IsDelivered rounds) (λ bytes e. read_lem 200 w bytes h e)
            (λ failed. read_failed w h failed);
    }

    -- What was kept from the handshake is handed on first.
    pub read_device-IsDelivered :
        (first : Option (List ℕ)) (rounds : ℕ) (w : World S)
        → ((bytes : List ℕ) → first ≡ some bytes → All IsByte bytes)
        → arrived w.trace ≡ pending first ++ delivered w.trace
        → IsDelivered (read_device callbacks device first rounds w).1
    unfolding read_device ◌>>=◌
    read_device-IsDelivered none rounds w is_bytes h =
        (read_frames-IsDelivered rounds).kept w (record { same = h })
    read_device-IsDelivered (some bytes) rounds w is_bytes h =
        continue_with-Keeps IsDelivered _ _ (λ _. read_frames callbacks device rounds)
          (λ _. read_frames-IsDelivered rounds)
          (take_frame-IsDelivered bytes w (is_bytes bytes refl) h)
