-- ===== src/Usb/Source/Receiver.antt =====
-- The receiver behind the wired source: `UdpReceiver._handle_usb_data` as the callback of
-- `UsbPacketSource`, of pc-server/pc_server/receiver.py.
use niw_pspto_pc.Base.{
  ℕ, ◌-◌, ◌≡◌, Bool, true, List, [], ◌∷◌, Option, none, some, length, take, string_eq,
}
use mathlib.Core.Path.{subst}
use niw_pspto_pc.Base.Dict.{lookup}
use niw_pspto_pc.Receiver.State.{Receiver, Effect, send_ack, Env, Clock, usb, address_eq}
use niw_pspto_pc.Receiver.Handle.{Handled, ignored, handled, raised}
use niw_pspto_pc.Receiver.Process.{handle_usb_data}
use niw_pspto_pc.Receiver.Process.Data.{process_data-IsConsistent}
use niw_pspto_pc.Receiver.Invariant.{IsConsistent}
use niw_pspto_pc.Receiver.Invariant.Packets.{SeenBy}
use niw_pspto_pc.Usb.Source.{Reaction, done, raises, sends, Callbacks, Attempt, run, new_source}
use niw_pspto_pc.Usb.Source.Laws.{AllEnds}
use niw_pspto_pc.Usb.Source.Users.{run-user}

-- The ACK among some effects.
unfoldable pub first_ack : List Effect → Option (List ℕ)
first_ack [] = none
first_ack (send_ack transport address ack ∷ effects) = some ack
first_ack (_ ∷ effects) = first_ack effects

-- The ACK that a step sent.
abbrev pub sent_ack : Receiver → Receiver → Option (List ℕ)
sent_ack before after = first_ack (take (length after.trace - length before.trace) after.trace)

abbrev pub end_of : Receiver × Handled → Reaction Receiver
end_of (r, ignored) = done r
end_of (r, handled s) = done r
end_of (r, raised) = raises r

-- `_handle_usb_data(data, send_reply)`: a `UsbDisconnectedError` of `send_reply` is a `RuntimeError`,
-- which `_process_data` takes for an ACK that was not sent.
unfoldable pub usb_reaction : Env → Clock → List ℕ → Receiver → Reaction Receiver
unfolding first_ack
usb_reaction env clock payload r =
    let react = λ (sent : Bool).
      end_of (handle_usb_data (record env { ack_delivered = λ ack. sent }) clock payload r) in
    let tried = handle_usb_data (record env { ack_delivered = λ ack. true }) clock payload r in
    elim (sent_ack r tried.0) [ none ↦ end_of tried | some ack ↦ sends ack react ]

-- The source that `run` of the receiver makes: it has no hooks. The callbacks of the receiver and its
-- clocks may depend on all that it has done.
unfoldable pub usb_callbacks : (Receiver → Env) → (Receiver → Clock) → Callbacks Receiver
unfolding usb_reaction
usb_callbacks env clock = record {
  on_packet = λ payload r. usb_reaction (env r) (clock r) payload r;
  on_connected = λ r. some r;
  on_disconnected = λ r. some r;
}

end_of-AllEnds : (p : Receiver × Handled) → IsConsistent p.0 → AllEnds IsConsistent (end_of p)
end_of-AllEnds (r, ignored) h = h
end_of-AllEnds (r, handled s) h = h
end_of-AllEnds (r, raised) h = h

handle_usb_data-IsConsistent :
    (env : Env) (clock : Clock) (payload : List ℕ) (r : Receiver)
    → SeenBy (lookup ("usb", 0) r.clients) clock.received_at
    → IsConsistent r
    → IsConsistent (handle_usb_data env clock payload r).0
unfolding handle_usb_data
handle_usb_data-IsConsistent env clock payload r seen h =
    process_data-IsConsistent env clock payload ("usb", 0) usb r seen h

usb_reaction-AllEnds :
    (env : Env) (clock : Clock) (payload : List ℕ) (r : Receiver)
    → SeenBy (lookup ("usb", 0) r.clients) clock.received_at
    → IsConsistent r
    → AllEnds IsConsistent (usb_reaction env clock payload r)
unfolding usb_reaction
usb_reaction-AllEnds env clock payload r seen h =
    let after = λ (sent : Bool).
      end_of-AllEnds (handle_usb_data (record env { ack_delivered = λ ack. sent }) clock payload r)
        (handle_usb_data-IsConsistent (record env { ack_delivered = λ ack. sent }) clock payload r
          seen h) in
    by_ack
      (sent_ack r (handle_usb_data (record env { ack_delivered = λ ack. true }) clock payload r).0)
      _ _ (after true) after
  where
    by_ack :
        (ack : Option (List ℕ)) (quiet : Reaction Receiver) (react : Bool → Reaction Receiver)
        → AllEnds IsConsistent quiet
        → ((sent : Bool) → AllEnds IsConsistent (react sent))
        → AllEnds IsConsistent
            (elim ack as (λ _. Reaction Receiver) [ none ↦ quiet | some a ↦ sends a react ])
    by_ack none quiet react q k = q
    by_ack (some a) quiet react q k = k

-- A receiver that is fed by the wired source alone keeps its invariant, through any sequence of
-- devices, handshakes, frames, failed replies and reconnections, if the clock of its datagrams is
-- never behind the last one.
usb_run-IsConsistent :
    (env : Receiver → Env) (clock : Receiver → Clock) (attempts : List Attempt) (r : Receiver)
    → ((s : Receiver) → SeenBy (lookup ("usb", 0) s.clients) (clock s).received_at)
    → IsConsistent r
    → IsConsistent (run (usb_callbacks env clock) attempts (new_source r)).world.user
unfolding usb_callbacks
usb_run-IsConsistent env clock attempts r seen h =
    run-user IsConsistent (usb_callbacks env clock)
      (λ payload s q. usb_reaction-AllEnds (env s) (clock s) payload s (seen s) q)
      (λ s t q e. same_state s t e q) (λ s t q e. same_state s t e q) attempts (new_source r) h
  where
    same_state : (s t : Receiver) → some s ≡ some t → IsConsistent s → IsConsistent t
    same_state s t e q = let same : s ≡ t = cc in subst IsConsistent same q
