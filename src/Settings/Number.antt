-- ===== src/Settings/Number.antt =====
-- `str(number)` and `int(text, 10)` of Python, as the settings use them. The digits that `int` knows are
-- those of the Unicode tables of the runtime, a parameter.
use niw_pspto_pc.Base.{
  ℕ, zero, suc, ◌+◌, ◌*◌, ◌/◌, ◌%◌, Bool, true, false, List, [], ◌∷◌, Option, none, some, ltb, leb,
  ◌==◌, ◌&&◌, if◌then◌else◌,
}
use niw_pspto_pc.Protocol.Pairing.{Unicode, strip}

-- The digits of `n` in front of `rest`, in at most `rounds` rounds.
unfoldable pub digits_before : ℕ → ℕ → List ℕ → List ℕ
digits_before zero n rest = rest
digits_before (suc rounds) n rest = elim (ltb n 10) [
  | true ↦ (b'0' + n) ∷ rest
  | false ↦ digits_before rounds (n / 10) ((b'0' + n % 10) ∷ rest)
]

-- `str(n)`; a number has fewer digits than its successor counts.
unfoldable pub decimal : ℕ → List ℕ
unfolding digits_before
decimal n = digits_before (suc n) n []

-- `sys.int_info.default_max_str_digits`
abbrev pub max_str_digits : ℕ
max_str_digits = 4300

module _ (digit : ℕ → Option ℕ) where
  -- The digits of `int`: a single underscore may stand between two of them. The arguments are whether
  -- the character before was a digit, the number of digits and the value so far.
  unfoldable pub read_digits : Bool → ℕ → ℕ → List ℕ → Option ℕ
  read_digits after count acc [] = if after && leb count max_str_digits then some acc else none
  read_digits after count acc (c ∷ cs) =
      if c == b'_'
      then if after then read_digits false count acc cs else none
      else elim (digit c) [ none ↦ none | some d ↦ read_digits true (count + 1) (acc * 10 + d) cs ]

  -- `int(text, 10)`: whether it is negative, and its absolute value; `none` is the `ValueError`.
  unfoldable pub read_signed : List ℕ → Option (Bool × ℕ)
  unfolding read_digits
  read_signed [] = none
  read_signed (c ∷ cs) =
      if c == b'-'
      then elim (read_digits false 0 0 cs) [ none ↦ none | some n ↦ some (true, n) ]
      else elim (read_digits false 0 0 (if c == b'+' then cs else c ∷ cs)) [
        | none ↦ none
        | some n ↦ some (false, n)
      ]

  unfoldable pub parse_int : Unicode → List ℕ → Option (Bool × ℕ)
  unfolding read_signed
  parse_int u text = read_signed (strip u text)
