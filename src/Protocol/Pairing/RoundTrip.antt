-- ===== src/Protocol/Pairing/RoundTrip.antt =====
-- parse_pairing_token against format_pairing_token.
use niw_pspto_pc.Base.{
  ℕ, suc, ◌+◌, ◌*◌, ◌/◌, ◌%◌, ◌<◌, ◌≤◌, ◌≡◌, refl, ◌∙◌, ap, Bool, true, false, ◌&&◌, not, List, [],
  ◌∷◌, none, some, bit_and, ltb, ◌==◌, length, get_elem?, equals, nat_eq, option_eq, set,
  option_beq_iff, arith,
}
use mathlib.Core.List.{flat_map}
use niw_pspto_pc.Base.Bits.{all_below, all_below_sound, bit_and_mask, bit_or_shift}
use niw_pspto_pc.Base.Dict.{lookup}
use niw_pspto_pc.Protocol.{pairing_token_max}
use niw_pspto_pc.Protocol.Pairing.{
  pairing_alphabet, pairing_values, value, format_from, format_pairing_token, Unicode, IsUnicode,
  ascii_space, ascii_upper, normalize, parse_from, parse_pairing_token,
}

-- The letter of a digit, as a number that is 0 outside the alphabet.
abbrev pub letter : ℕ → ℕ
letter d = elim (get_elem? pairing_alphabet d) [ none ↦ 0 | some c ↦ c ]

-- A letter of the alphabet: its own upper case, no space and no hyphen, and it stands for `d`.
abbrev is_letter : ℕ → ℕ → Bool
is_letter d c =
    ltb c 128
    && not (ascii_space c)
    && (ascii_upper c == c)
    && not (c == b' ')
    && not (c == b'-')
    && equals (lookup c pairing_values) (some d)
    && equals (get_elem? pairing_alphabet d) (some c)

alphabet_table : all_below 32 (λ d. is_letter d (letter d)) ≡ true
unfolding all_below lookup pairing_values
alphabet_table = refl

letter_facts : (d : ℕ) → d < 32 → is_letter d (letter d) ≡ true
letter_facts d h = all_below_sound 32 _ d alphabet_table h

letter_at : (r : ℕ) → get_elem? pairing_alphabet (bit_and r 0x1f) ≡ some (letter (r % 32))
letter_at r = ground (
  arith,
  bit_and_mask 5 r,
  letter_facts (r % 32) (omega arith),
  option_beq_iff (get_elem? pairing_alphabet (r % 32)) (some (letter (r % 32))),
)

format_step :
    (i : ℕ) (cs : List ℕ) (r : ℕ)
    → format_from (suc i) cs r ≡ format_from i (set cs i (letter (r % 32))) (r / 32)
unfolding format_from
format_step i cs r = rw (letter_at r, format_from) refl

parse_step :
    (acc d : ℕ) (cs : List ℕ)
    → d < 32
    → parse_from acc (letter d ∷ cs) ≡ parse_from (acc * 32 + d) cs
unfolding parse_from
parse_step acc d cs h = ground (
  arith,
  letter_facts d h,
  option_beq_iff (lookup (letter d) pairing_values) (some d),
  bit_or_shift 5 acc d h,
)

-- The five letters of a token, most significant first.
abbrev pub token_letters : ℕ → List ℕ
token_letters v =
    letter (v / 32 / 32 / 32 / 32 % 32)
    ∷ letter (v / 32 / 32 / 32 % 32)
    ∷ letter (v / 32 / 32 % 32)
    ∷ letter (v / 32 % 32)
    ∷ letter (v % 32)
    ∷ []

pub format_token :
    (v : ℕ) → v ≤ pairing_token_max → format_pairing_token v ≡ value (token_letters v)
unfolding format_pairing_token
format_token v h =
    let small : ltb pairing_token_max v ≡ false = ground arith in
    rw (small, format_step, format_step, format_step, format_step, format_step)
      (unfold format_from in refl)

module _ (u : Unicode) (laws : IsUnicode u) where
  letter_space : (d : ℕ) → d < 32 → u.is_space (letter d) ≡ false
  letter_space d h = ground (arith, letter_facts d h, laws.space (letter d))

  letter_upper : (d : ℕ) → d < 32 → u.upper (letter d) ≡ letter d ∷ []
  letter_upper d h = ground (arith, letter_facts d h, laws.upper (letter d))

  letter_kept : (d : ℕ) → d < 32 → ((letter d == b' ') ≡ false) × ((letter d == b'-') ≡ false)
  letter_kept d h = ground (arith, letter_facts d h)

  normalize_letters :
      (a b c d e : ℕ)
      → a < 32
      → b < 32
      → c < 32
      → d < 32
      → e < 32
      → normalize u (letter a ∷ letter b ∷ letter c ∷ letter d ∷ letter e ∷ [])
        ≡ letter a ∷ letter b ∷ letter c ∷ letter d ∷ letter e ∷ []
  unfolding normalize flat_map
  normalize_letters a b c d e ha hb hc hd he = simp (
    letter_space a ha,
    letter_space e he,
    letter_upper a ha,
    letter_upper b hb,
    letter_upper c hc,
    letter_upper d hd,
    letter_upper e he,
    (letter_kept a ha).0,
    (letter_kept b hb).0,
    (letter_kept c hc).0,
    (letter_kept d hd).0,
    (letter_kept e he).0,
    (letter_kept a ha).1,
    (letter_kept b hb).1,
    (letter_kept c hc).1,
    (letter_kept d hd).1,
    (letter_kept e he).1,
  )

  parse_letters :
      (a b c d e : ℕ)
      → a < 32
      → b < 32
      → c < 32
      → d < 32
      → e < 32
      → parse_pairing_token u (letter a ∷ letter b ∷ letter c ∷ letter d ∷ letter e ∷ [])
        ≡ value ((((a * 32 + b) * 32 + c) * 32 + d) * 32 + e)
  unfolding parse_pairing_token
  parse_letters a b c d e ha hb hc hd he =
      rw
        (
          normalize_letters a b c d e ha hb hc hd he,
          parse_step (0) a (letter b ∷ letter c ∷ letter d ∷ letter e ∷ []) ha,
          parse_step (0 * 32 + a) b (letter c ∷ letter d ∷ letter e ∷ []) hb,
          parse_step ((0 * 32 + a) * 32 + b) c (letter d ∷ letter e ∷ []) hc,
          parse_step (((0 * 32 + a) * 32 + b) * 32 + c) d (letter e ∷ []) hd,
          parse_step ((((0 * 32 + a) * 32 + b) * 32 + c) * 32 + d) e [] he,
        )
        (unfold parse_from in ap value (omega arith))

  -- Every 25-bit token has a code of five characters, and parsing the code gives the token back.
  pub parse_token-format_token :
      (v : ℕ)
      → v ≤ pairing_token_max
      → (code : List ℕ) × (format_pairing_token v ≡ value code)
        × (length code ≡ 5)
        × (parse_pairing_token u code ≡ value v)
  parse_token-format_token v h = (
    token_letters v,
    format_token v h,
    refl,
    parse_letters (v / 32 / 32 / 32 / 32 % 32) (v / 32 / 32 / 32 % 32) (v / 32 / 32 % 32)
          (v / 32 % 32) (v % 32) (omega arith) (omega arith) (omega arith) (omega arith)
          (omega arith)
        ∙ ap value (omega arith),
  )
