-- ===== src/Settings/Laws/Validity.antt =====
-- What validation gives is valid.
use niw_pspto_pc.Base.{
  ℕ, ◌≤◌, ◌≡◌, refl, sym, ap, ◌∙◌, false, not, ◌&&◌, ◌||◌, List, [], ◌∷◌, ◌++◌, All, All-append,
  Option, leb, ◌==◌, length, arith, Bool-cases, Option-cases, inl, inr,
}
use mathlib.Core.Path.{subst}
use niw_pspto_pc.Base.Dict.{member, add, member-add}
use niw_pspto_pc.Protocol.Pairing.{Unicode, strip}
use niw_pspto_pc.Settings.{
  text_eq, split, replace, Ipv4Address, parse_address, address_text, GuiSettings, Validated, valid,
  refused, collect_hosts, validate_hosts, validate_bind_settings,
}
use niw_pspto_pc.Settings.Number.{parse_int}
use niw_pspto_pc.Settings.Laws.Address.{IsAddress, parse_address-IsAddress}
use niw_pspto_pc.Settings.Laws.RoundTrip.{IsPrinted, AreDistinct, IsValid}

-- `seen` holds the same texts as `allowed_hosts`, which are distinct addresses.
record IsCollected (allowed seen : List (List ℕ)) : Type 0 where
  same : (text : List ℕ) → member text seen ≡ member text allowed
  printed : All IsPrinted allowed
  distinct : AreDistinct allowed

member-append :
    (k : List ℕ) (xs ys : List (List ℕ)) → member k (xs ++ ys) ≡ (member k xs || member k ys)
unfolding member
member-append k [] ys = refl
member-append k (x ∷ xs) ys = ground (arith, member-append k xs ys)

append-AreDistinct :
    (texts : List (List ℕ)) (text : List ℕ)
    → AreDistinct texts
    → member text texts ≡ false
    → AreDistinct (texts ++ text ∷ [])
unfolding AreDistinct member
append-AreDistinct [] text d new = (refl, tt)
append-AreDistinct (t ∷ texts) text d new = (
  ground (
    arith,
    member-append t texts (text ∷ []),
    d.0,
    text_eq.beq_iff t text,
    text_eq.beq_iff text t,
  ),
  append-AreDistinct texts text d.1 (ground (arith, new)),
)

take_one :
    (text : List ℕ) (allowed seen : List (List ℕ))
    → IsPrinted text
    → member text seen ≡ false
    → IsCollected allowed seen
    → IsCollected (allowed ++ text ∷ []) (add text seen)
unfolding member
take_one text allowed seen fine new c = record {
  same = λ t. ground (arith, member-add text t seen, member-append t allowed (text ∷ []), c.same t);
  printed = All-append IsPrinted allowed (text ∷ []) c.printed (fine, tt);
  distinct = append-AreDistinct allowed text c.distinct (sym (c.same text) ∙ new);
}

abbrev valid_or {ℓ} : {A : Type ℓ} → A → Validated A → A
valid_or a (valid b) = b
valid_or a (refused e) = a

is_printed : (a : Ipv4Address) → IsAddress a → IsPrinted (address_text a)
unfolding IsPrinted
is_printed a fine = (a, fine, refl)

collect-Valid :
    (u : Unicode) (values allowed seen : List (List ℕ)) {result : List (List ℕ)}
    → IsCollected allowed seen
    → collect_hosts u values allowed seen ≡ valid result
    → All IsPrinted result × AreDistinct result
unfolding collect_hosts
collect-Valid u [] allowed seen c e =
    let same = ap (valid_or []) (unfold collect_hosts in e) in
    (subst (All IsPrinted) same c.printed, subst AreDistinct same c.distinct)
collect-Valid u (v ∷ values) allowed seen c e = elim (Bool-cases (length (strip u v) == 0)) [
  | inl blank ↦ collect-Valid u values allowed seen c (rw (collect_hosts, blank) at e)
  | inr filled ↦ elim (Option-cases (parse_address (strip u v))) [
    | inl bad ↦ absurd (ground (arith, e))
    | inr (a, fine) ↦ elim (Bool-cases (member (address_text a) seen)) [
      | inl old ↦ collect-Valid u values allowed seen c (rw (collect_hosts, filled, fine, old) at e)
      | inr new ↦
          collect-Valid u values (allowed ++ address_text a ∷ []) (add (address_text a) seen)
            (take_one (address_text a) allowed seen
              (is_printed a (parse_address-IsAddress (strip u v) fine)) new c)
            (rw (collect_hosts, filled, fine, new) at e)
    ]
  ]
]

none-IsCollected : IsCollected [] []
unfolding AreDistinct
none-IsCollected = record { same = λ text. refl; printed = tt; distinct = tt }

validate_hosts-IsValid :
    (u : Unicode) (address : Ipv4Address) (port : ℕ) (text : List ℕ) {settings : GuiSettings}
    → IsAddress address
    → 1 ≤ port
    → port ≤ 65535
    → validate_hosts u address port text ≡ valid settings
    → IsValid settings
unfolding validate_hosts
validate_hosts-IsValid u address port text {settings} fine low high e =
    go (collect_hosts u (split b',' (replace b';' b',' text)) [] []) refl e
  where
    go :
        (hosts : Validated (List (List ℕ)))
        → collect_hosts u (split b',' (replace b';' b',' text)) [] [] ≡ hosts
        → (elim hosts [
          | refused x ↦ refused x
          | valid allowed_hosts ↦
              valid
                (record { host = address_text address; port = port; allowed_hosts = allowed_hosts })
        ])
          ≡ valid settings
        → IsValid settings
    go (refused x) collected h = absurd (ground (arith, h))
    go (valid allowed_hosts) collected h =
        let (printed, distinct) = collect-Valid u _ [] [] none-IsCollected collected in
        subst IsValid (ap (valid_or settings) h) (record {
          host = is_printed address fine;
          port_low = low;
          port_high = high;
          allowed = printed;
          distinct = distinct;
        })

-- Validation gives valid settings only: the listening address and the allowed hosts are IPv4 addresses
-- as `str` prints them, no allowed host occurs twice, and the port is between 1 and 65535.
pub validate_bind_settings-IsValid :
    (u : Unicode) (digit : ℕ → Option ℕ) (host port allowed : List ℕ) {settings : GuiSettings}
    → validate_bind_settings u digit host port allowed ≡ valid settings
    → IsValid settings
unfolding validate_bind_settings
validate_bind_settings-IsValid u digit host port allowed {settings} e =
    elim (Option-cases (parse_address (strip u host))) [
      | inl bad ↦ absurd (ground (arith, e))
      | inr (a, fine) ↦ elim (Option-cases (parse_int digit u (strip u port))) [
        | inl bad ↦ absurd (ground (arith, e))
        | inr ((negative, n), number) ↦
            elim (Bool-cases (negative || not (leb 1 n && leb n 65535))) [
              | inl outside ↦ absurd (ground (arith, e))
              | inr inside ↦
                  validate_hosts-IsValid u a n allowed (parse_address-IsAddress (strip u host) fine)
                    (ground arith) (ground arith)
                    (rw (validate_bind_settings, fine, number, inside) at e)
            ]
      ]
    ]
