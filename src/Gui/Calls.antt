-- ===== src/Gui/Calls.antt =====
-- The calls of the window on a receiver.
pub mod Buttons
use niw_pspto_pc.Base.{
  ℕ, ◌≤◌, ◌≡◌, refl, sym, ap, ◌∙◌, Bool, true, false, not, ◌||◌, String, List, [], ◌∷◌, ◌++◌,
  Option, none, some, equals, nat_eq, ==_iff, option_eq, leb, ◌==◌, Bool-cases, Option-cases, inl,
  inr, arith, if◌then◌else◌,
}
use niw_pspto_pc.Base.Dict.{lookup, member, add, IsDistinct}
use niw_pspto_pc.Protocol.{pairing_token_max}
use niw_pspto_pc.Protocol.Pairing.{
  Unicode, value, normalize, format_pairing_token, parse_pairing_token,
}
use niw_pspto_pc.Protocol.Pairing.Canonical.{format_token-parse_token}
use niw_pspto_pc.Receiver.State.{
  Receiver, ClientState, TransportKind, wifi, usb, same_transport, same_transport_iff, Address,
  address_eq,
}
use niw_pspto_pc.Receiver.Clients as Clients
use niw_pspto_pc.Receiver.Clients.{addresses_where, release_active_in}
use niw_pspto_pc.Receiver.Clients.Laws.{passes, member-addresses_where, drop_clients-SameRest}
use niw_pspto_pc.Gui.{
  App, Call, ReceiverCall, allow_transport, set_pairing_token, disconnect_active_client,
  request_stop, on_receiver, on_service, disconnect,
}
use niw_pspto_pc.Gui.Pairing.{is_usb, enter_code, take_token, reset_doctor, authorize}
use niw_pspto_pc.Gui.Facts.{when_some}
use niw_pspto_pc.Gui.Actions.{
  disconnect_transport, disconnect_current, refresh_doctor, forget_token, end_client,
}

-- A call, on the receiver; a `ValueError` leaves it as it is.
unfoldable pub perform : ReceiverCall → Receiver → Receiver
perform (allow_transport t) r = Clients.allow_transport r t
perform (set_pairing_token token) r = elim (Clients.set_pairing_token r token) [
  | none ↦ r
  | some s ↦ s
]
perform disconnect_active_client r = (Clients.disconnect_active_client r).0
perform request_stop r = r

-- The calls of receiver `id`, on the receiver, from the first on; the latest call is the first of the
-- list.
unfoldable pub perform_calls : ℕ → List Call → Receiver → Receiver
unfolding perform
perform_calls id [] r = r
perform_calls id (on_receiver i c ∷ calls) r =
    let before = perform_calls id calls r in if i == id then perform c before else before
perform_calls id (_ ∷ calls) r = perform_calls id calls r

release_member :
    (gone : List Address) (r : Receiver) (address : Address)
    → r.active_client ≡ some address
    → member address gone ≡ true
    → release_active_in gone r ≡ record r { active_client = none }
unfolding release_active_in
release_member gone r address held inside = rw (held, release_active_in, inside) refl

release_token :
    (gone : List Address) (r : Receiver)
    → (release_active_in gone r).pairing_token ≡ r.pairing_token
unfolding release_active_in
release_token gone r = elim (Option-cases r.active_client) [
  | inl nobody ↦ rw (nobody, release_active_in) refl
  | inr (address, held) ↦ elim (Bool-cases (member address gone)) [
    | inl inside ↦ rw (held, release_active_in, inside) refl
    | inr outside ↦ rw (held, release_active_in, outside) refl
  ]
]

-- A new code, or none, ends the control of a client over Wi-Fi.
pub set_token_releases :
    (token : Option ℕ) (r : Receiver) (address : Address) (state : ClientState)
    → Clients.is_token token ≡ true
    → IsDistinct r.clients
    → r.active_client ≡ some address
    → lookup address r.clients ≡ some state
    → state.transport ≡ wifi
    → ((perform (set_pairing_token token) r).active_client ≡ none)
      × ((perform (set_pairing_token token) r).pairing_token ≡ token)
unfolding perform Clients.set_pairing_token
set_token_releases token r address state fine distinct held known over_wifi =
    let p = λ (c : ClientState). same_transport c.transport wifi in
    let gone = addresses_where p r.clients in
    let rest = drop_clients-SameRest gone (record r { pairing_token = token }) in
    let inside : member address gone ≡ true =
      member-addresses_where p address r.clients distinct ∙ rw (known, over_wifi) refl in
    rw
      (
        perform,
        Clients.set_pairing_token,
        fine,
        release_member gone (Clients.drop_clients gone (record r { pairing_token = token })) address
            (rest.active_client ∙ held) inside,
      )
      (refl, rest.pairing_token)

-- A new code replaces the old one whoever is in control.
pub set_token_lem :
    (token : Option ℕ) (r : Receiver)
    → Clients.is_token token ≡ true
    → (perform (set_pairing_token token) r).pairing_token ≡ token
unfolding perform Clients.set_pairing_token
set_token_lem token r fine =
    let gone = addresses_where (λ c. same_transport c.transport wifi) r.clients in
    let fresh = Clients.drop_clients gone (record r { pairing_token = token }) in
    rw (perform, Clients.set_pairing_token, fine)
      (release_token gone fresh
        ∙ (drop_clients-SameRest gone (record r { pairing_token = token })).pairing_token)

pub released_usb : (r : Receiver) → (perform disconnect_active_client r).active_client ≡ none
unfolding perform Clients.disconnect_active_client
released_usb r = elim (Option-cases r.active_client) [
  | inl nobody ↦ rw (nobody, Clients.disconnect_active_client) refl
  | inr (address, held) ↦ rw (held, Clients.disconnect_active_client) refl
]
