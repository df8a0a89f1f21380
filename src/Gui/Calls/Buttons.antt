-- ===== src/Gui/Calls/Buttons.antt =====
-- What the window's buttons do to the receiver that they call: the laws of `disconnect_current` and
-- `authorize`.
use niw_pspto_pc.Base.{
  ℕ, ◌≡◌, refl, Bool, true, false, String, List, [], ◌∷◌, ◌++◌, Option, none, some, nat_eq,
  option_eq, ◌==◌, arith,
}
use niw_pspto_pc.Base.Dict.{lookup, IsDistinct}
use niw_pspto_pc.Protocol.Pairing.{Unicode, value, normalize, parse_pairing_token}
use niw_pspto_pc.Protocol.Pairing.Canonical.{format_token-parse_token}
use niw_pspto_pc.Receiver.State.{
  Receiver, ClientState, TransportKind, wifi, usb, Address, address_eq,
}
use niw_pspto_pc.Receiver.Clients as Clients
use niw_pspto_pc.Receiver.Clients.{addresses_where, release_active_in}
use niw_pspto_pc.Gui.{
  App, Call, ReceiverCall, set_pairing_token, disconnect_active_client, on_receiver, on_service,
  disconnect,
}
use niw_pspto_pc.Gui.Pairing.{is_usb, enter_code, take_token, reset_doctor, authorize}
use niw_pspto_pc.Gui.Facts.{when_some}
use niw_pspto_pc.Gui.Actions.{disconnect_transport, disconnect_current, refresh_doctor}
use niw_pspto_pc.Gui.Calls.{perform, perform_calls, set_token_releases, set_token_lem, released_usb}

-- The client leaves control over its transport.
end_call : TransportKind → ReceiverCall
end_call wifi = set_pairing_token none
end_call usb = disconnect_active_client

-- The calls that came after.
record Adds (id : ℕ) (c : ReceiverCall) (before behind : List Call) : Type 0 where
  calls : List Call
  added : behind ≡ calls ++ before
  performed : (r : Receiver) → perform_calls id calls r ≡ perform c r

one_call :
    (id : ℕ) (c : ReceiverCall) (r : Receiver)
    → perform_calls id (on_receiver id c ∷ []) r ≡ perform c r
unfolding perform_calls
one_call id c r = let same : (id == id) ≡ true = ground arith in rw same refl

service_Adds :
    (id : ℕ) (c : ReceiverCall) (reason : String) (service : Option ℕ) (before : List Call)
    → Adds id c before (elim service [
      | none ↦ on_receiver id c ∷ before
      | some i ↦ on_service i (disconnect reason) ∷ on_receiver id c ∷ before
    ])
service_Adds id c reason none before = record {
  calls = on_receiver id c ∷ [];
  added = refl;
  performed = one_call id c;
}
service_Adds id c reason (some i) before = record {
  calls = on_service i (disconnect reason) ∷ on_receiver id c ∷ [];
  added = refl;
  performed = λ r. unfold perform_calls in one_call id c r;
}

-- The service's call comes first.
before_Adds :
    (id token : ℕ) (service : Option ℕ) (before : List Call)
    → Adds id (set_pairing_token (some token)) before (
        on_receiver id (set_pairing_token (some token)) ∷ (elim service [
          | none ↦ before
          | some i ↦ on_service i (disconnect "pairing-changed") ∷ before
        ]))
before_Adds id token none before = record {
  calls = on_receiver id (set_pairing_token (some token)) ∷ [];
  added = refl;
  performed = one_call id (set_pairing_token (some token));
}
before_Adds id token (some i) before = record {
  calls =
      on_receiver id (set_pairing_token (some token))
      ∷ on_service i (disconnect "pairing-changed")
      ∷ [];
  added = refl;
  performed = λ r. unfold perform_calls in one_call id (set_pairing_token (some token)) r;
}

transport_Adds :
    (t : TransportKind) (ready : Bool) (id : ℕ) (a : App)
    → a.receiver ≡ some id
    → Adds id (end_call t) a.trace (disconnect_transport t ready a).trace
unfolding disconnect_transport refresh_doctor end_call
transport_Adds wifi ready id a here =
    rw here
      (service_Adds id (set_pairing_token none) "user-disconnected" a.controller_service a.trace)
transport_Adds usb ready id a here =
    rw here
      (service_Adds id disconnect_active_client "user-disconnected" a.controller_service a.trace)

end_call_releases :
    (t : TransportKind) (r : Receiver) (address : Address) (state : ClientState)
    → IsDistinct r.clients
    → state.transport ≡ t
    → r.active_client ≡ some address
    → lookup address r.clients ≡ some state
    → ((perform (end_call t) r).active_client ≡ none)
      × (t ≡ wifi → (perform (end_call t) r).pairing_token ≡ none)
unfolding end_call
end_call_releases wifi r address state distinct over held known =
    let (free, coded) = set_token_releases none r address state refl distinct held known over in
    (free, λ e. coded)
end_call_releases usb r address state distinct over held known =
    (released_usb r, λ e. absurd (ground (arith, e)))

disconnect_when :
    (ready : Bool) (a : App) (t : TransportKind)
    → a.connected_transport ≡ some t
    → disconnect_current ready a ≡ disconnect_transport t ready a
unfolding disconnect_current
disconnect_when ready a t shown =
    when_some a.connected_transport (λ c. disconnect_transport c ready a) a shown

shows_none :
    (t : TransportKind) (ready : Bool) (a : App)
    → (disconnect_transport t ready a).connected_transport ≡ none
unfolding disconnect_transport
shows_none t ready a = refl

-- A disconnect in the window ends the control of the client that it shows: where the window has a
-- receiver and shows a transport as connected, and the active client of the receiver uses that
-- transport, the calls of `disconnect_current` leave the receiver without an active client, and over
-- Wi-Fi without a code too; the window then shows no connection.
pub disconnect_current-releases :
    (ready : Bool) (id : ℕ) (a : App) (r : Receiver) (address : Address) (state : ClientState)
    → IsDistinct r.clients
    → a.receiver ≡ some id
    → a.connected_transport ≡ some state.transport
    → r.active_client ≡ some address
    → lookup address r.clients ≡ some state
    → (calls : List Call) × ((disconnect_current ready a).trace ≡ calls ++ a.trace)
      × ((perform_calls id calls r).active_client ≡ none)
      × (state.transport ≡ wifi → (perform_calls id calls r).pairing_token ≡ none)
      × ((disconnect_current ready a).connected_transport ≡ none)
disconnect_current-releases ready id a r address state distinct here shown held known =
    let t = state.transport in
    let adds = transport_Adds t ready id a here in
    let (free, coded) = end_call_releases t r address state distinct refl held known in
    rw (disconnect_when ready a t shown) (
      adds.calls,
      adds.added,
      rw (adds.performed r) free,
      λ over. rw (adds.performed r) (coded over),
      shows_none t ready a,
    )

-- The calls of `enter_code` behind `take_token`.
code_Adds :
    (usb_active ready : Bool) (id token : ℕ) (text : List ℕ) (a : App)
    → a.receiver ≡ some id
    → Adds id
        (set_pairing_token (some token))
        a.trace
        (enter_code usb_active ready token text (take_token token a)).trace
unfolding enter_code take_token reset_doctor refresh_doctor
code_Adds true ready id token text a here = rw here (record {
  calls = on_receiver id (set_pairing_token (some token)) ∷ [];
  added = refl;
  performed = one_call id (set_pairing_token (some token));
})
code_Adds false ready id token text a here =
    rw here (before_Adds id token a.controller_service a.trace)

code_shown :
    (usb_active ready : Bool) (token : ℕ) (text : List ℕ) (a : App)
    → let b = enter_code usb_active ready token text (take_token token a) in
      (b.active_token ≡ some token) × (b.screen.code ≡ text) × (b.selected_transport ≡ wifi)
unfolding enter_code take_token reset_doctor refresh_doctor
code_shown true ready token text a = (refl, refl, refl)
code_shown false ready token text a = (refl, refl, refl)

-- A code that the user enters reaches the receiver: where the window has a receiver and the text in the
-- entry parses, the calls of `authorize` leave the receiver with the code that was entered; the window
-- keeps that code for later receivers, and shows it without its spaces and hyphens, in upper case.
pub authorize_lem :
    (u : Unicode) (ready : Bool) (id token : ℕ) (a : App) (r : Receiver)
    → a.receiver ≡ some id
    → parse_pairing_token u a.screen.code ≡ value token
    → (calls : List Call) × ((authorize u ready a).trace ≡ calls ++ a.trace)
      × ((perform_calls id calls r).pairing_token ≡ some token)
      × ((authorize u ready a).active_token ≡ some token)
      × ((authorize u ready a).screen.code ≡ normalize u a.screen.code)
      × ((authorize u ready a).selected_transport ≡ wifi)
unfolding authorize
authorize_lem u ready id token a r here parsed =
    let (small, printed) = format_token-parse_token u a.screen.code parsed in
    let adds =
      code_Adds (is_usb a.connected_transport) ready id token (normalize u a.screen.code) a here in
    let known : Clients.is_token (some token) ≡ true = ground (arith, small) in
    let shown =
      code_shown (is_usb a.connected_transport) ready token (normalize u a.screen.code) a in
    rw (authorize, parsed, printed)
      (
        adds.calls,
        adds.added,
        rw (adds.performed r) (set_token_lem (some token) r known),
        shown.0,
        shown.1,
        shown.2,
      )
