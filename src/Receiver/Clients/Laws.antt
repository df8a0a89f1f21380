-- ===== src/Receiver/Clients/Laws.antt =====
-- What dropping clients leaves, seen through `lookup` and `member`.
use niw_pspto_pc.Base.{
  ◌≡◌, refl, Bool, false, List, [], ◌∷◌, Option, none, some, arith, if◌then◌else◌,
}
use niw_pspto_pc.Base.Dict.{
  Dict, lookup, member, discard, IsDistinct, lookup-remove, member-discard, remove-IsDistinct,
}
use niw_pspto_pc.Receiver.State.{Receiver, ClientState, Address, address_eq}
use niw_pspto_pc.Receiver.Clients.{addresses_where, drop_client, drop_clients, discard_all}

abbrev pub passes : (ClientState → Bool) → Option ClientState → Bool
passes p none = false
passes p (some state) = p state

-- With one entry for each address, the addresses are those whose client passes.
pub member-addresses_where :
    (p : ClientState → Bool) (a : Address) (clients : Dict Address ClientState)
    → IsDistinct clients
    → member a (addresses_where p clients) ≡ passes p (lookup a clients)
unfolding addresses_where lookup member
member-addresses_where p a [] h = refl
member-addresses_where p a ((b, state) ∷ clients) h =
    ground (arith, member-addresses_where p a clients h.1, address_eq.beq_iff b a)

module _ (a : Address) where
  pub lookup-drop_clients :
      (gone : List Address) (r : Receiver)
      → lookup a (drop_clients gone r).clients
        ≡ (if member a gone then none else lookup a r.clients)
  unfolding drop_clients member
  lookup-drop_clients [] r = refl
  lookup-drop_clients (b ∷ gone) r =
      ground (arith, lookup-drop_clients gone (drop_client r b), lookup-remove b a r.clients)

  pub blocked-drop_clients :
      (gone : List Address) (r : Receiver)
      → member a (drop_clients gone r).blocked_clients
        ≡ (if member a gone then false else member a r.blocked_clients)
  unfolding drop_clients member
  blocked-drop_clients [] r = refl
  blocked-drop_clients (b ∷ gone) r =
      ground
        (arith, blocked-drop_clients gone (drop_client r b), member-discard b a r.blocked_clients)

  pub acked-drop_clients :
      (gone : List Address) (r : Receiver)
      → lookup a (drop_clients gone r).last_ack_sent
        ≡ (if member a gone then none else lookup a r.last_ack_sent)
  unfolding drop_clients member
  acked-drop_clients [] r = refl
  acked-drop_clients (b ∷ gone) r =
      ground (arith, acked-drop_clients gone (drop_client r b), lookup-remove b a r.last_ack_sent)

  pub member-discard_all :
      (gone blocked : List Address)
      → member a (discard_all gone blocked) ≡ (if member a gone then false else member a blocked)
  unfolding discard_all member
  member-discard_all [] blocked = refl
  member-discard_all (b ∷ gone) blocked =
      ground (arith, member-discard_all gone (discard b blocked), member-discard b a blocked)

pub IsDistinct-drop_clients :
    (gone : List Address) (r : Receiver)
    → IsDistinct r.clients
    → IsDistinct (drop_clients gone r).clients
unfolding drop_clients
IsDistinct-drop_clients [] r h = h
IsDistinct-drop_clients (b ∷ gone) r h =
    IsDistinct-drop_clients gone (drop_client r b) (remove-IsDistinct b r.clients h)

-- The rest of the receiver stays as it is.
pub record SameRest (r s : Receiver) : Type 0 where
  pub config : s.config ≡ r.config
  pub pairing_token : s.pairing_token ≡ r.pairing_token
  pub active_client : s.active_client ≡ r.active_client
  pub trace : s.trace ≡ r.trace

pub drop_clients-SameRest : (gone : List Address) (r : Receiver) → SameRest r (drop_clients gone r)
unfolding drop_clients drop_client
drop_clients-SameRest [] r = record {
  config = refl;
  pairing_token = refl;
  active_client = refl;
  trace = refl;
}
drop_clients-SameRest (b ∷ gone) r =
    let same = drop_clients-SameRest gone (drop_client r b) in
    record {
      config = same.config;
      pairing_token = same.pairing_token;
      active_client = same.active_client;
      trace = same.trace;
    }
