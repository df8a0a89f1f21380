-- ===== src/Settings.antt =====
-- `GuiSettings` and `validate_bind_settings` of pc-server/pc_server/gui_settings.py. Texts are lists of
-- code points.
pub mod Number
pub mod File
pub mod Laws
mod Tests
use niw_pspto_pc.Base.{
  ℕ, ◌+◌, ◌-◌, ◌*◌, ◌≡◌, ◌↔◌, refl, Bool, true, false, not, ◌&&◌, ◌||◌, codes, List, [], ◌∷◌, ◌++◌,
  Option, none, some, Eq, ltb, leb, ◌==◌, length, if◌then◌else◌, arith, map,
}
use niw_pspto_pc.Base.Dict.{member, add}
use niw_pspto_pc.Protocol.Pairing.{Unicode, strip}
use niw_pspto_pc.Settings.Number.{decimal, parse_int}

abbrev pub text_beq : List ℕ → List ℕ → Bool
text_beq [] [] = true
text_beq (a ∷ s) (b ∷ t) = (a == b) && text_beq s t
text_beq _ _ = false

pub text_beq_iff : (s t : List ℕ) → (text_beq s t ≡ true) ↔ (s ≡ t)
text_beq_iff [] [] = ground arith
text_beq_iff [] (b ∷ t) = ground arith
text_beq_iff (a ∷ s) [] = ground arith
text_beq_iff (a ∷ s) (b ∷ t) = ground (arith, text_beq_iff s t)

instance abbrev pub text_eq : Eq (List ℕ)
text_eq = record { beq = text_beq; beq_iff = text_beq_iff }

abbrev push : ℕ → List (List ℕ) → List (List ℕ)
push c [] = (c ∷ []) ∷ []
push c (word ∷ words) = (c ∷ word) ∷ words

-- `text.split(c)` for one character `c`: one word more than there are such characters.
unfoldable pub split : ℕ → List ℕ → List (List ℕ)
split c [] = [] ∷ []
split c (x ∷ text) = if x == c then [] ∷ split c text else push x (split c text)

-- `separator.join(words)`
unfoldable pub join : List ℕ → List (List ℕ) → List ℕ
join separator [] = []
join separator (word ∷ []) = word
join separator (word ∷ words) = word ++ (separator ++ join separator words)

-- `text.replace(old, new)` for single characters.
abbrev pub replace : ℕ → ℕ → List ℕ → List ℕ
replace old new text = map (λ c. if c == old then new else c) text

abbrev is_digit : ℕ → Bool
is_digit c = leb b'0' c && leb c b'9'

abbrev pub all_digits : List ℕ → Bool
all_digits [] = true
all_digits (c ∷ text) = is_digit c && all_digits text

abbrev pub digits_value : ℕ → List ℕ → ℕ
digits_value acc [] = acc
digits_value acc (c ∷ text) = digits_value (acc * 10 + (c - b'0')) text

abbrev has_leading_zero : List ℕ → Bool
has_leading_zero (c ∷ d ∷ text) = c == b'0'
has_leading_zero _ = false

-- One of the four numbers of `ipaddress.IPv4Address`: one to three decimal digits, no leading zero, at
-- most 255.
unfoldable pub parse_octet : List ℕ → Option ℕ
parse_octet text =
    if length text == 0 || not (all_digits text)
    then none
    else if ltb 3 (length text) || has_leading_zero text || ltb 255 (digits_value 0 text)
    then none
    else some (digits_value 0 text)

pub record Ipv4Address : Type 0 where
  pub first : ℕ
  pub second : ℕ
  pub third : ℕ
  pub fourth : ℕ

abbrev pub four : Option ℕ → Option ℕ → Option ℕ → Option ℕ → Option Ipv4Address
four (some a) (some b) (some c) (some d) =
    some (record { first = a; second = b; third = c; fourth = d })
four _ _ _ _ = none

-- `ipaddress.IPv4Address(text)`; `none` is the `AddressValueError`.
unfoldable pub parse_address : List ℕ → Option Ipv4Address
unfolding split parse_octet
parse_address text = elim (split b'.' text) [
  | a ∷ b ∷ c ∷ d ∷ [] ↦ four (parse_octet a) (parse_octet b) (parse_octet c) (parse_octet d)
  | _ ↦ none
]

-- `str(address)`
unfoldable pub address_text : Ipv4Address → List ℕ
unfolding join decimal
address_text a =
    join (codes ".") (decimal a.first ∷ decimal a.second ∷ decimal a.third ∷ decimal a.fourth ∷ [])

pub record GuiSettings : Type 0 where
  pub host : List ℕ
  pub port : ℕ
  pub allowed_hosts : List (List ℕ)

abbrev pub default_host : List ℕ
default_host = codes "0.0.0.0"

abbrev pub default_port : ℕ
default_port = 47999

-- `GuiSettings()`
abbrev pub default_settings : GuiSettings
default_settings = record { host = default_host; port = default_port; allowed_hosts = [] }

-- The four `ValueError`s, in the order of the code.
pub data SettingsError : Type 0 where
  bad_host : SettingsError
  no_number : SettingsError
  port_out_of_range : SettingsError
  bad_allowed_host : List ℕ → SettingsError

pub data Validated {ℓ} (A : Type ℓ) : Type ℓ where
  valid : A → Validated A
  refused : SettingsError → Validated A

module _ (u : Unicode) where
  -- The loop over the values, with `allowed_hosts` and `seen` so far.
  unfoldable pub collect_hosts :
      List (List ℕ) → List (List ℕ) → List (List ℕ) → Validated (List (List ℕ))
  unfolding parse_address address_text
  collect_hosts [] allowed_hosts seen = valid allowed_hosts
  collect_hosts (v ∷ values) allowed_hosts seen =
      let candidate = strip u v in
      if length candidate == 0
      then collect_hosts values allowed_hosts seen
      else elim (parse_address candidate) [
        | none ↦ refused (bad_allowed_host candidate)
        | some address ↦
            if member (address_text address) seen
            then collect_hosts values allowed_hosts seen
            else collect_hosts values (allowed_hosts ++ address_text address ∷ [])
                (add (address_text address) seen)
      ]

  -- The parts behind the tests of the port.
  unfoldable pub validate_hosts : Ipv4Address → ℕ → List ℕ → Validated GuiSettings
  unfolding collect_hosts
  validate_hosts address port allowed_hosts_text =
      elim (collect_hosts (split b',' (replace b';' b',' allowed_hosts_text)) [] []) [
        | refused e ↦ refused e
        | valid allowed_hosts ↦
            valid
              (record { host = address_text address; port = port; allowed_hosts = allowed_hosts })
      ]

  unfoldable pub validate_bind_settings :
      (ℕ → Option ℕ) → List ℕ → List ℕ → List ℕ → Validated GuiSettings
  unfolding validate_hosts parse_int
  validate_bind_settings digit host_text port_text allowed_hosts_text =
      elim (parse_address (strip u host_text)) [
        | none ↦ refused bad_host
        | some address ↦ elim (parse_int digit u (strip u port_text)) [
          | none ↦ refused no_number
          | some (negative, port) ↦
              if negative || not (leb 1 port && leb port 65535)
              then refused port_out_of_range
              else validate_hosts address port allowed_hosts_text
        ]
      ]
