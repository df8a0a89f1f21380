-- ===== src/Protocol/Pairing.antt =====
-- format_pairing_token and parse_pairing_token of pc-server/pc_server/protocol.py. A Python string
-- is a list of code points. `str.upper` and `str.strip` go by the Unicode tables of the Python
-- runtime, which are a parameter; what the code relies on is their value on ASCII.
pub mod RoundTrip
pub mod Canonical
use niw_pspto_pc.Base.{
  ℕ, zero, suc, ◌+◌, ◌-◌, ◌*◌, ◌/◌, ◌^◌, ◌<◌, ◌≡◌, Bool, not, ◌&&◌, ◌||◌, String, codes, List, [],
  ◌∷◌, ◌++◌, Option, none, some, bit_and, bit_or, ltb, leb, ◌==◌, length, nat_eq, get_elem?, set,
  replicate, if◌then◌else◌,
}
use niw_pspto_pc.Base.Dict.{Dict, lookup, insert}
use niw_pspto_pc.Protocol.{pairing_token_max}
use mathlib.Core.List.{reverse, flat_map}

abbrev pub pairing_alphabet : List ℕ
pairing_alphabet = codes "ABCDEFGHJKLMNPQRSTUVWXYZ23456789"

abbrev pub pairing_token_length : ℕ
pairing_token_length = 5

-- `{character: index for index, character in enumerate(alphabet)}`, from `index` on.
unfoldable pub index_characters : ℕ → List ℕ → Dict ℕ ℕ → Dict ℕ ℕ
unfolding insert
index_characters index [] values = values
index_characters index (c ∷ cs) values = index_characters (index + 1) cs (insert c index values)

unfoldable pub pairing_values : Dict ℕ ℕ
unfolding index_characters
pairing_values = index_characters 0 pairing_alphabet []

-- `ValueError` for a number out of range, a wrong length and a character outside the alphabet;
-- `no_letter` is the `IndexError` of the alphabet.
pub data PairingError : Type 0 where
  out_of_range : PairingError
  no_letter : PairingError
  wrong_length : PairingError
  invalid_character : ℕ → PairingError

pub data Pairing {ℓ} (A : Type ℓ) : Type ℓ where
  value : A → Pairing A
  raises : PairingError → Pairing A

-- The loop `for index in range(index, -1, -1)`, the first argument one above the index.
unfoldable pub format_from : ℕ → List ℕ → ℕ → Pairing (List ℕ)
format_from zero characters remaining = value characters
format_from (suc index) characters remaining =
    elim (get_elem? pairing_alphabet (bit_and remaining 0x1f)) [
      | none ↦ raises no_letter
      | some letter ↦ format_from index (set characters index letter) (remaining / 2 ^ 5)
    ]

unfoldable pub format_pairing_token : ℕ → Pairing (List ℕ)
unfolding format_from
format_pairing_token token =
    if ltb pairing_token_max token
    then raises out_of_range
    else format_from pairing_token_length (replicate pairing_token_length b'A') token

-- The tables of the runtime: `str.isspace` and `str.upper` of one code point.
pub record Unicode : Type 0 where
  pub is_space : ℕ → Bool
  pub upper : ℕ → List ℕ

abbrev pub ascii_space : ℕ → Bool
ascii_space c = leb 9 c && leb c 13 || leb 28 c && leb c 32

abbrev pub ascii_upper : ℕ → ℕ
ascii_upper c = if leb b'a' c && leb c b'z' then c - 32 else c

-- What the Python documentation says of them on ASCII.
pub record IsUnicode (u : Unicode) : Type 0 where
  pub space : (c : ℕ) → c < 128 → u.is_space c ≡ ascii_space c
  pub upper : (c : ℕ) → c < 128 → u.upper c ≡ ascii_upper c ∷ []

module _ (u : Unicode) where
  unfoldable pub lstrip : List ℕ → List ℕ
  lstrip [] = []
  lstrip (c ∷ cs) = if u.is_space c then lstrip cs else c ∷ cs

  unfoldable pub strip : List ℕ → List ℕ
  unfolding lstrip
  strip text = reverse (lstrip (reverse (lstrip text)))

-- `text.replace(c, "")` for one character `c`.
unfoldable pub delete : ℕ → List ℕ → List ℕ
delete c [] = []
delete c (x ∷ xs) = if x == c then delete c xs else x ∷ delete c xs

unfoldable pub normalize : Unicode → List ℕ → List ℕ
unfolding strip delete
normalize u text = delete b'-' (delete b' ' (flat_map u.upper (strip u text)))

-- The loop over the characters, with the value so far.
unfoldable pub parse_from : ℕ → List ℕ → Pairing ℕ
parse_from acc [] = value acc
parse_from acc (c ∷ cs) = elim (lookup c pairing_values) [
  | none ↦ raises (invalid_character c)
  | some digit ↦ parse_from (bit_or (acc * 2 ^ 5) digit) cs
]

unfoldable pub parse_pairing_token : Unicode → List ℕ → Pairing ℕ
unfolding normalize parse_from
parse_pairing_token u text =
    if not (length (normalize u text) == pairing_token_length)
    then raises wrong_length
    else parse_from 0 (normalize u text)
