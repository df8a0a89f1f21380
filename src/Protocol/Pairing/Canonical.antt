-- ===== src/Protocol/Pairing/Canonical.antt =====
-- What parse_pairing_token accepts.
use niw_pspto_pc.Base.{
  ℕ, ◌+◌, ◌*◌, ◌/◌, ◌%◌, ◌<◌, ◌≤◌, ◌≡◌, refl, ◌∙◌, ap, Bool, true, ◌&&◌, List, [], ◌∷◌, some,
  Option-cases, Bool-cases, inl, inr, ltb, ◌==◌, length, nat_eq, arith,
}
use niw_pspto_pc.Base.Bits.{bit_or_shift}
use niw_pspto_pc.Base.Dict.{Dict, lookup}
use niw_pspto_pc.Protocol.{pairing_token_max}
use niw_pspto_pc.Protocol.Pairing.{
  pairing_values, value, format_pairing_token, Unicode, normalize, parse_from, parse_pairing_token,
  pairing_token_length,
}
use niw_pspto_pc.Protocol.Pairing.RoundTrip.{letter, token_letters, format_token}

all_entries : (ℕ → ℕ → Bool) → Dict ℕ ℕ → Bool
all_entries p [] = true
all_entries p ((k, v) ∷ d) = p k v && all_entries p d

all_entries_sound :
    (p : ℕ → ℕ → Bool) (k v : ℕ) (dict : Dict ℕ ℕ)
    → all_entries p dict ≡ true
    → lookup k dict ≡ some v
    → p k v ≡ true
unfolding all_entries lookup
all_entries_sound p k v [] h e = cc
all_entries_sound p k v ((j, w) ∷ dict) h e = ground (arith, all_entries_sound p k v dict)

values_table : all_entries (λ c d. ltb d 32 && (letter d == c)) pairing_values ≡ true
unfolding all_entries pairing_values
values_table = refl

lookup_values : (c : ℕ) {d : ℕ} → lookup c pairing_values ≡ some d → (d < 32) × (c ≡ letter d)
lookup_values c {d} e =
    let h =
      all_entries_sound (λ c d. ltb d 32 && (letter d == c)) c d pairing_values values_table e in
    ground arith

-- One round of the loop, on a parse that succeeds.
parse_step_inverse :
    (acc c : ℕ) (cs : List ℕ) {v : ℕ}
    → parse_from acc (c ∷ cs) ≡ value v
    → (d : ℕ) × (d < 32) × (c ≡ letter d) × (parse_from (acc * 32 + d) cs ≡ value v)
unfolding parse_from
parse_step_inverse acc c cs h = elim (Option-cases (lookup c pairing_values)) [
  | inl missing ↦ absurd (ground arith)
  | inr (d, e) ↦
      let (small, same) = lookup_values c e in
      (d, small, same, ground (arith, bit_or_shift 5 acc d small))
]

parse_end : (acc : ℕ) {v : ℕ} → parse_from acc [] ≡ value v → acc ≡ v
unfolding parse_from
parse_end acc h = ground arith

digits_of :
    (a b c d e v : ℕ)
    → a < 32
    → b < 32
    → c < 32
    → d < 32
    → e < 32
    → ((((0 * 32 + a) * 32 + b) * 32 + c) * 32 + d) * 32 + e ≡ v
    → (v ≤ pairing_token_max)
      × (token_letters v ≡ letter a ∷ letter b ∷ letter c ∷ letter d ∷ letter e ∷ [])
digits_of a b c d e v ha hb hc hd he h =
    let ea : v / 32 / 32 / 32 / 32 % 32 ≡ a = omega arith in
    let eb : v / 32 / 32 / 32 % 32 ≡ b = omega arith in
    let ec : v / 32 / 32 % 32 ≡ c = omega arith in
    let ed : v / 32 % 32 ≡ d = omega arith in
    let ee : v % 32 ≡ e = omega arith in (omega arith, rw (ea, eb, ec, ed, ee) refl)

parsed_letters :
    (text : List ℕ) {v : ℕ}
    → length text ≡ 5
    → parse_from 0 text ≡ value v
    → (v ≤ pairing_token_max) × (token_letters v ≡ text)
parsed_letters (x ∷ y ∷ z ∷ s ∷ t ∷ []) {v} n h =
    let (a, ha, ea, h1) = parse_step_inverse 0 x (y ∷ z ∷ s ∷ t ∷ []) h in
    let (b, hb, eb, h2) = parse_step_inverse (0 * 32 + a) y (z ∷ s ∷ t ∷ []) h1 in
    let (c, hc, ec, h3) = parse_step_inverse ((0 * 32 + a) * 32 + b) z (s ∷ t ∷ []) h2 in
    let (d, hd, ed, h4) = parse_step_inverse (((0 * 32 + a) * 32 + b) * 32 + c) s (t ∷ []) h3 in
    let (e, he, ee, h5) =
      parse_step_inverse ((((0 * 32 + a) * 32 + b) * 32 + c) * 32 + d) t [] h4 in
    let (small, same) = digits_of a b c d e v ha hb hc hd he (parse_end _ h5) in
    (small, ground arith)
parsed_letters text n h = absurd (omega arith)

-- Whatever text a user enters, if it parses to a number then the number is a 25-bit token and its
-- code is the entered text without the spaces and hyphens, in upper case.
pub format_token-parse_token :
    (u : Unicode) (text : List ℕ) {v : ℕ}
    → parse_pairing_token u text ≡ value v
    → (v ≤ pairing_token_max) × (format_pairing_token v ≡ value (normalize u text))
unfolding parse_pairing_token
format_token-parse_token u text {v} h =
    elim (Bool-cases (length (normalize u text) == pairing_token_length)) [
      | inl five ↦
          let (small, letters) = parsed_letters (normalize u text) (ground arith) (ground arith) in
          (small, format_token v small ∙ ap value letters)
      | inr other ↦ absurd (ground arith)
    ]
