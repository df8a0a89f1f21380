-- ===== src/Struct/Canonical.antt =====
-- Packing what was unpacked gives the same bytes, and `unpack` fails on a wrong length alone.
use niw_pspto_pc.Base.{
  ℕ, zero, suc, ◌+◌, ◌*◌, ◌/◌, ◌^◌, ◌<◌, ◌≤◌, ◌≡◌, refl, ap, append_assoc, append-nil, List, [],
  ◌∷◌, ◌++◌, some, Option-cases, inl, inr, length, length-append, All, arith,
}
use niw_pspto_pc.Struct.{
  IsByte, Order, Format, size, to_big, to_little, to_bytes, pack, split_at?, from_big, from_little,
  from_bytes, unpack_from, unpack,
}
use niw_pspto_pc.Struct.RoundTrip.{length-pack}
use native.Mathlib.Nat.{pow-suc, div-eq_of_lt-le}

from_big_lem : (acc : ℕ) (bs : List ℕ) → from_big acc bs ≡ acc * 256 ^ length bs + from_big 0 bs
unfolding from_big
from_big_lem acc [] = omega arith
from_big_lem acc (b ∷ bs) = omega (
  arith,
  from_big_lem (acc * 256 + b) bs,
  from_big_lem (0 * 256 + b) bs,
  ap (λ (t : ℕ). acc * t) (pow-suc 256 (length bs)),
)

from_big-lt : (bs : List ℕ) → All IsByte bs → from_big 0 bs < 256 ^ length bs
unfolding from_big
from_big-lt [] h = omega arith
from_big-lt (b ∷ bs) h =
    grind (arith, from_big_lem (0 * 256 + b) bs, from_big-lt bs h.1, pow-suc 256 (length bs))

from_little-lt : (bs : List ℕ) → All IsByte bs → from_little bs < 256 ^ length bs
unfolding from_little
from_little-lt [] h = omega arith
from_little-lt (b ∷ bs) h = omega (arith, from_little-lt bs h.1, pow-suc 256 (length bs))

quotient : (x p r : ℕ) → r < p → (x * p + r) / p ≡ x
quotient x p r h = div-eq_of_lt-le p (omega arith) (omega arith)

-- The digits of what was read are the bytes, whatever stands above them.
to_big-from_big :
    (acc : ℕ) (bs : List ℕ) → All IsByte bs → to_big (length bs) (from_big acc bs) ≡ bs
unfolding to_big from_big
to_big-from_big acc [] h = refl
to_big-from_big acc (b ∷ bs) h = grind (
  arith,
  to_big-from_big (acc * 256 + b) bs h.1,
  from_big_lem (acc * 256 + b) bs,
  quotient (acc * 256 + b) (256 ^ length bs) (from_big 0 bs) (from_big-lt bs h.1),
)

to_little-from_little : (bs : List ℕ) → All IsByte bs → to_little (length bs) (from_little bs) ≡ bs
unfolding to_little from_little
to_little-from_little [] h = refl
to_little-from_little (b ∷ bs) h = grind (
  arith,
  to_little-from_little bs h.1,
  λ (d : b + 256 * from_little bs ≡ b + 256 * from_little bs). quotient (from_little bs) 256 b h.0,
)

to_bytes-from_bytes :
    (o : Order) (bs : List ℕ) → All IsByte bs → to_bytes o (length bs) (from_bytes o bs) ≡ bs
unfolding to_bytes from_bytes
to_bytes-from_bytes Order.big bs h = to_big-from_big 0 bs h
to_bytes-from_bytes Order.little bs h = to_little-from_little bs h

from_bytes-lt : (o : Order) (bs : List ℕ) → All IsByte bs → from_bytes o bs < 256 ^ length bs
unfolding from_bytes
from_bytes-lt Order.big bs h = from_big-lt bs h
from_bytes-lt Order.little bs h = from_little-lt bs h

nil_of_length : (xs : List ℕ) → length xs ≡ 0 → xs ≡ []
nil_of_length [] h = refl
nil_of_length (x ∷ xs) h = absurd (omega arith)

pub split_at?_parts :
    (w : ℕ) (bs : List ℕ) {front rest : List ℕ}
    → split_at? w bs ≡ some (front, rest)
    → (bs ≡ front ++ rest) × (length front ≡ w)
unfolding split_at?
split_at?_parts zero bs h = ground arith
split_at?_parts (suc w) [] h = cc
split_at?_parts (suc w) (b ∷ bs) h = elim (Option-cases (split_at? w bs)) [
  | inl e ↦ absurd (ground arith)
  | inr ((front, rest), e) ↦ ground (arith, split_at?_parts w bs e)
]

split_at?_total :
    (w : ℕ) (bs : List ℕ)
    → w ≤ length bs
    → (front : List ℕ) × (rest : List ℕ) × (split_at? w bs ≡ some (front, rest))
unfolding split_at?
split_at?_total zero bs h = ([], bs, refl)
split_at?_total (suc w) [] h = absurd (omega arith)
split_at?_total (suc w) (b ∷ bs) h =
    let (front, rest, e) = split_at?_total w bs (omega arith) in (b ∷ front, rest, rw e)

All-split : (P : ℕ → Type 0) (xs ys : List ℕ) → All P (xs ++ ys) → All P xs × All P ys
All-split P [] ys h = (tt, h)
All-split P (x ∷ xs) ys h = let (a, b) = All-split P xs ys h.1 in ((h.0, a), b)

-- Packing the unpacked fields gives back the bytes that were read.
pub pack-unpack_from :
    (o : Order) (f : Format) (bs : List ℕ) {vs : List ℕ}
    → All IsByte bs
    → unpack_from o f bs ≡ some vs
    → (front : List ℕ) × (rest : List ℕ) × (bs ≡ front ++ rest) × (pack o f vs ≡ some front)
unfolding pack unpack_from
pack-unpack_from o [] bs h e = ([], bs, refl, ground arith)
pack-unpack_from o (w ∷ f) bs h e = elim (Option-cases (split_at? w bs)) [
  | inl none_split ↦ absurd (ground arith)
  | inr ((front, rest), split) ↦ elim (Option-cases (unpack_from o f rest)) [
    | inl none_rest ↦ absurd (ground arith)
    | inr (vs', tail) ↦
        let (whole, width) = split_at?_parts w bs split in
        let (bytes_front, bytes_rest) = All-split IsByte front rest (rw whole at h) in
        let (packed, left, parts, repack) = pack-unpack_from o f rest bytes_rest tail in
        (
          front ++ packed,
          left,
          ground (arith, append_assoc front packed left),
          ground
              (arith, to_bytes-from_bytes o front bytes_front, from_bytes-lt o front bytes_front),
        )
  ]
]

length-unpack_from :
    (o : Order) (f : Format) (bs : List ℕ)
    → size f ≤ length bs
    → (vs : List ℕ) × (unpack_from o f bs ≡ some vs) × (length vs ≡ length f)
unfolding unpack_from
length-unpack_from o [] bs h = ([], refl, refl)
length-unpack_from o (w ∷ f) bs h =
    let (front, rest, split) = split_at?_total w bs (omega arith) in
    let (whole, width) = split_at?_parts w bs split in
    let fits = rw whole at h in
    let (vs, e, n) = length-unpack_from o f rest (omega (arith, fits, length-append front rest)) in
    (from_bytes o front ∷ vs, ground arith, omega arith)

-- On as many bytes as the format has, `unpack` returns one value for each field.
pub length-unpack :
    (o : Order) (f : Format) (bs : List ℕ)
    → length bs ≡ size f
    → (vs : List ℕ) × (unpack o f bs ≡ some vs) × (length vs ≡ length f)
unfolding unpack
length-unpack o f bs h =
    let (vs, e, n) = length-unpack_from o f bs (omega arith) in (vs, ground arith, n)

-- The same for a prefix.
pub unpack_from_total :
    (o : Order) (f : Format) (bs : List ℕ)
    → size f ≤ length bs
    → (vs : List ℕ) × (unpack_from o f bs ≡ some vs) × (length vs ≡ length f)
unpack_from_total = length-unpack_from

pub pack-unpack :
    (o : Order) (f : Format) (bs : List ℕ) {vs : List ℕ}
    → All IsByte bs
    → length bs ≡ size f
    → unpack o f bs ≡ some vs
    → pack o f vs ≡ some bs
unfolding unpack
pack-unpack o f bs {vs} h n e =
    let whole : unpack_from o f bs ≡ some vs = ground arith in
    let (front, rest, parts, packed) = pack-unpack_from o f bs h whole in
    ground (
      arith,
      length-pack o f vs packed,
      length-append front rest,
      nil_of_length rest,
      append-nil front,
      ap length parts,
    )
