-- ===== src/Struct.antt =====
-- The formats of Python's `struct` module that the program uses: unsigned fields of 1, 2, 4 and
-- 8 bytes without alignment, in network (`!`) or little-endian (`<`) order. A `bytes` object is
-- a list of numbers below 256.
pub mod RoundTrip
pub mod Canonical
use niw_pspto_pc.Base.{
  ℕ, zero, suc, ◌+◌, ◌*◌, ◌/◌, ◌%◌, ◌^◌, ◌<◌, List, [], ◌∷◌, ◌++◌, Option, none, some, ltb, length,
  if◌then◌else◌,
}

abbrev pub IsByte : ℕ → Type 0
IsByte b = b < 256

pub data Order : Type 0 where
  big little : Order

-- The widths of the fields in bytes.
abbrev pub Format : Type 0
Format = List ℕ

-- `Struct.size`
abbrev pub size : Format → ℕ
size [] = 0
size (w ∷ f) = w + size f

-- `w` bytes of `n`, the most significant first.
unfoldable pub to_big : ℕ → ℕ → List ℕ
to_big zero n = []
to_big (suc w) n = (n / 256 ^ w % 256) ∷ to_big w n

unfoldable pub to_little : ℕ → ℕ → List ℕ
to_little zero n = []
to_little (suc w) n = (n % 256) ∷ to_little w (n / 256)

unfoldable pub to_bytes : Order → ℕ → ℕ → List ℕ
unfolding to_big to_little
to_bytes Order.big w n = to_big w n
to_bytes Order.little w n = to_little w n

-- `struct.pack`; `none` is `struct.error`: a value that does not fit, or a wrong count.
unfoldable pub pack : Order → Format → List ℕ → Option (List ℕ)
unfolding to_bytes
pack o [] [] = some []
pack o [] (v ∷ vs) = none
pack o (w ∷ f) [] = none
pack o (w ∷ f) (v ∷ vs) = elim (pack o f vs) [
  | none ↦ none
  | some rest ↦ if ltb v (256 ^ w) then some (to_bytes o w v ++ rest) else none
]

-- The first `w` bytes and the rest, if there are as many.
unfoldable pub split_at? : ℕ → List ℕ → Option (List ℕ × List ℕ)
split_at? zero bs = some ([], bs)
split_at? (suc w) [] = none
split_at? (suc w) (b ∷ bs) = elim (split_at? w bs) [
  | none ↦ none
  | some (front, rest) ↦ some (b ∷ front, rest)
]

unfoldable pub from_big : ℕ → List ℕ → ℕ
from_big acc [] = acc
from_big acc (b ∷ bs) = from_big (acc * 256 + b) bs

unfoldable pub from_little : List ℕ → ℕ
from_little [] = 0
from_little (b ∷ bs) = b + 256 * from_little bs

unfoldable pub from_bytes : Order → List ℕ → ℕ
unfolding from_big from_little
from_bytes Order.big bs = from_big 0 bs
from_bytes Order.little bs = from_little bs

-- `struct.unpack_from`: the fields at the front; `none` is `struct.error`.
unfoldable pub unpack_from : Order → Format → List ℕ → Option (List ℕ)
unfolding split_at? from_bytes
unpack_from o [] bs = some []
unpack_from o (w ∷ f) bs = elim (split_at? w bs) [
  | none ↦ none
  | some (front, rest) ↦ elim (unpack_from o f rest) [
    | none ↦ none
    | some vs ↦ some (from_bytes o front ∷ vs)
  ]
]

-- `struct.unpack` wants exactly `size` bytes.
unfoldable pub unpack : Order → Format → List ℕ → Option (List ℕ)
unfolding unpack_from
unpack o f bs = elim (unpack_from o f bs) [
  | none ↦ none
  | some vs ↦ if ltb (size f) (length bs) then none else some vs
]
