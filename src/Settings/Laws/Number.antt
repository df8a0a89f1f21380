-- ===== src/Settings/Laws/Number.antt =====
-- Numbers are read as they were printed.
use niw_pspto_pc.Base.{
  ℕ, zero, suc, ◌+◌, ◌*◌, ◌/◌, ◌%◌, ◌<◌, ◌≤◌, ◌≡◌, refl, ap, ◌∙◌, Bool, true, false, ◌&&◌, List, [],
  ◌∷◌, All, Option, some, ltb, leb, ◌==◌, arith, Bool-cases, inl, inr,
}
use niw_pspto_pc.Protocol.Pairing.{Unicode, IsUnicode, strip}
use niw_pspto_pc.Settings.Number.{
  digits_before, decimal, max_str_digits, read_digits, read_signed, parse_int,
}
use niw_pspto_pc.Settings.Laws.Text.{IsPlain, strip-plain, All-weaken}

abbrev pub IsDigit : ℕ → Type 0
IsDigit c = (leb b'0' c && leb c b'9') ≡ true

-- What the documentation of `int` says of the ASCII digits.
unfoldable pub IsDecimal : (ℕ → Option ℕ) → Type 0
IsDecimal digit = (d : ℕ) → d < 10 → digit (b'0' + d) ≡ some d

digits_last :
    (rounds n : ℕ) (rest : List ℕ) → n < 10 → digits_before (suc rounds) n rest ≡ (b'0' + n) ∷ rest
unfolding digits_before
digits_last rounds n rest h =
    let one : ltb n 10 ≡ true = ground arith in rw (one, digits_before) refl

digits_more :
    (rounds n : ℕ) (rest : List ℕ)
    → ltb n 10 ≡ false
    → digits_before (suc rounds) n rest ≡ digits_before rounds (n / 10) ((b'0' + n % 10) ∷ rest)
unfolding digits_before
digits_more rounds n rest more = rw (more, digits_before) refl

pub digits-IsDigit :
    (rounds n : ℕ) (rest : List ℕ) → All IsDigit rest → All IsDigit (digits_before rounds n rest)
digits-IsDigit zero n rest h = unfold digits_before in h
digits-IsDigit (suc rounds) n rest h = elim (Bool-cases (ltb n 10)) [
  | inl one ↦ rw (digits_last rounds n rest (ground arith), All) (ground arith, h)
  | inr more ↦
      rw (digits_more rounds n rest more)
        (digits-IsDigit rounds (n / 10) ((b'0' + n % 10) ∷ rest) (ground arith, h))
]

pub decimal-IsDigit : (n : ℕ) → All IsDigit (decimal n)
unfolding decimal
decimal-IsDigit n = digits-IsDigit (suc n) n [] tt

pub digit-IsPlain : (c : ℕ) → IsDigit c → IsPlain c
digit-IsPlain c h = ground arith

abbrev pub pow10 : ℕ → ℕ
pow10 zero = 1
pow10 (suc b) = 10 * pow10 b

module _ (digit : ℕ → Option ℕ) (facts : IsDecimal digit) where
  read_digit :
      (d : ℕ) (after : Bool) (count acc : ℕ) (rest : List ℕ)
      → d < 10
      → read_digits digit after count acc ((b'0' + d) ∷ rest)
        ≡ read_digits digit true (count + 1) (acc * 10 + d) rest
  unfolding read_digits IsDecimal
  read_digit d after count acc rest h =
      let other : (b'0' + d == b'_') ≡ false = ground arith in rw (other, facts d h) refl

  read_last :
      (n rounds count : ℕ) (after : Bool) (rest : List ℕ)
      → n < 10
      → (k : ℕ) × (k ≤ 1)
        × (read_digits digit after count 0 (digits_before (suc rounds) n rest)
            ≡ read_digits digit true (count + k) n rest)
  read_last n rounds count after rest h =
      let same : 0 * 10 + n ≡ n = omega arith in
      (
        1,
        omega arith,
        rw (digits_last rounds n rest h) (
            read_digit n after count 0 rest h
            ∙ ap (λ v. read_digits digit true (count + 1) v rest) same),
      )

  -- The digits of a number below `pow10 b` are read as the number, and there are at most `b + 1`.
  read_digits_before :
      (rounds n b count : ℕ) (after : Bool) (rest : List ℕ)
      → n < rounds
      → n < pow10 b
      → (k : ℕ) × (k ≤ b + 1)
        × (read_digits digit after count 0 (digits_before rounds n rest)
            ≡ read_digits digit true (count + k) n rest)
  read_digits_before zero n b count after rest h small = absurd (omega arith)
  read_digits_before (suc rounds) n zero count after rest h small =
      read_last n rounds count after rest (omega arith)
  read_digits_before (suc rounds) n (suc b) count after rest h small =
      elim (Bool-cases (ltb n 10)) [
        | inl one ↦
            let (k, few, e) = read_last n rounds count after rest (ground arith) in
            (k, omega arith, e)
        | inr more ↦
            let (k, few, e) =
              read_digits_before rounds (n / 10) b count after ((b'0' + n % 10) ∷ rest)
                (ground arith) (omega (arith, small)) in
            let last = read_digit (n % 10) true (count + k) (n / 10) rest (omega arith) in
            let same : n / 10 * 10 + n % 10 ≡ n = omega arith in
            let counted : count + k + 1 ≡ count + (k + 1) = omega arith in
            (
              k + 1,
              omega arith,
              rw (digits_more rounds n rest more) (e ∙ last ∙ rw (same, counted) refl),
            )
      ]

  read_unsigned :
      (c : ℕ) (cs : List ℕ) (n : ℕ)
      → IsDigit c
      → read_digits digit false 0 0 (c ∷ cs) ≡ some n
      → read_signed digit (c ∷ cs) ≡ some (false, n)
  unfolding read_signed
  read_unsigned c cs n h e =
      let minus : (c == b'-') ≡ false = ground arith in
      let plus : (c == b'+') ≡ false = ground arith in rw (minus, plus, e) refl

  read_text :
      (text : List ℕ) (n : ℕ)
      → All IsDigit text
      → read_digits digit false 0 0 text ≡ some n
      → read_signed digit text ≡ some (false, n)
  read_text [] n h e = absurd (unfold read_digits in ground (arith, e))
  read_text (c ∷ cs) n h e = read_unsigned c cs n h.0 e

  -- A number of at most 4299 digits is read as it was printed.
  pub parse_int-decimal :
      (u : Unicode) (n b : ℕ)
      → IsUnicode u
      → b < 4300
      → n < pow10 b
      → parse_int digit u (strip u (decimal n)) ≡ some (false, n)
  unfolding parse_int
  parse_int-decimal u n b runtime short small =
      let plain = All-weaken IsDigit IsPlain (decimal n) digit-IsPlain (decimal-IsDigit n) in
      let (k, few, e) = read_digits_before (suc n) n b 0 false [] (omega arith) small in
      let fits : leb (0 + k) max_str_digits ≡ true = ground arith in
      rw (strip-plain u runtime (decimal n) plain, strip-plain u runtime (decimal n) plain)
        (read_text (decimal n) n (decimal-IsDigit n)
          (unfold decimal in e ∙ (unfold read_digits in rw fits refl)))
