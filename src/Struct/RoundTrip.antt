-- ===== src/Struct/RoundTrip.antt =====
-- Packing and unpacking are inverse, in both byte orders.
use niw_pspto_pc.Base.{
  ℕ, zero, suc, ◌+◌, ◌*◌, ◌/◌, ◌%◌, ◌^◌, ◌<◌, ◌≡◌, refl, ap, List, [], ◌∷◌, ◌++◌, some,
  Option-cases, inl, inr, append-nil, length, length-append, append_assoc, arith,
}
use niw_pspto_pc.Struct.{
  Order, Format, size, to_big, to_little, to_bytes, pack, split_at?, from_big, from_little,
  from_bytes, unpack_from, unpack,
}
use native.Mathlib.Nat.{pow-suc, div-add-mod, div-div-eq-div-mul, div-eq_of_lt}

-- The values fit their fields, one for one.
abbrev pub Fits : Format → List ℕ → Type 0
Fits [] [] = Unit
Fits [] (v ∷ vs) = ⊥
Fits (w ∷ f) [] = ⊥
Fits (w ∷ f) (v ∷ vs) = (v < 256 ^ w) × Fits f vs

length-to_big : (w n : ℕ) → length (to_big w n) ≡ w
unfolding to_big
length-to_big zero n = refl
length-to_big (suc w) n = omega (arith, length-to_big w n)

length-to_little : (w n : ℕ) → length (to_little w n) ≡ w
unfolding to_little
length-to_little zero n = refl
length-to_little (suc w) n = omega (arith, length-to_little w (n / 256))

pub length-to_bytes : (o : Order) (w n : ℕ) → length (to_bytes o w n) ≡ w
unfolding to_bytes
length-to_bytes Order.big w n = length-to_big w n
length-to_bytes Order.little w n = length-to_little w n

-- What `from_big` reads of the lowest `w` digits of `n`, with the higher digits written out.
from_big-to_big :
    (w acc n : ℕ) → from_big acc (to_big w n) + n / 256 ^ w * 256 ^ w ≡ acc * 256 ^ w + n
unfolding to_big from_big
from_big-to_big zero acc n = omega arith
from_big-to_big (suc w) acc n = omega (
  arith,
  pow-suc 256 w,
  div-div-eq-div-mul n (256 ^ w) 256,
  ap (λ (t : ℕ). t * 256 ^ w) (div-add-mod (n / 256 ^ w) 256),
  ap (λ (t : ℕ). n / 256 ^ suc w * t) (pow-suc 256 w),
  ap (λ (t : ℕ). acc * t) (pow-suc 256 w),
  ap (λ (t : ℕ). n / t) (pow-suc 256 w),
  ap (λ (t : ℕ). t * (256 ^ w * 256)) (div-div-eq-div-mul n (256 ^ w) 256),
  ap (λ (t : ℕ). n / t * (256 ^ w * 256)) (pow-suc 256 w),
  from_big-to_big w (acc * 256 + n / 256 ^ w % 256) n,
)

from_little-to_little : (w n : ℕ) → n < 256 ^ w → from_little (to_little w n) ≡ n
unfolding to_little from_little
from_little-to_little zero n h = omega arith
from_little-to_little (suc w) n h =
    omega (arith, from_little-to_little w (n / 256) (omega (arith, pow-suc 256 w)))

split_at?-append : (w : ℕ) (xs ys : List ℕ) → length xs ≡ w → split_at? w (xs ++ ys) ≡ some (xs, ys)
unfolding split_at?
split_at?-append zero [] ys h = refl
split_at?-append zero (x ∷ xs) ys h = absurd (omega arith)
split_at?-append (suc w) [] ys h = absurd (omega arith)
split_at?-append (suc w) (x ∷ xs) ys h = rw (split_at?-append w xs ys (omega arith))

from_bytes-to_bytes : (o : Order) (w n : ℕ) → n < 256 ^ w → from_bytes o (to_bytes o w n) ≡ n
unfolding from_bytes to_bytes
from_bytes-to_bytes Order.big w n h = grind (arith, from_big-to_big w 0 n, div-eq_of_lt h)
from_bytes-to_bytes Order.little w n h = from_little-to_little w n h

-- What `pack` writes has the format's size.
pub length-pack :
    (o : Order) (f : Format) (vs : List ℕ) {bs : List ℕ}
    → pack o f vs ≡ some bs
    → length bs ≡ size f
unfolding pack
length-pack o [] [] h = ground arith
length-pack o [] (v ∷ vs) h = cc
length-pack o (w ∷ f) [] h = cc
length-pack o (w ∷ f) (v ∷ vs) h = elim (Option-cases (pack o f vs)) [
  | inl e ↦ absurd (ground arith)
  | inr (rest, e) ↦
      ground
        (arith, length-pack o f vs e, length-append (to_bytes o w v) rest, length-to_bytes o w v)
]

-- `pack` succeeds exactly on the values that fit.
pub Fits-pack :
    (o : Order) (f : Format) (vs : List ℕ) → Fits f vs → (bs : List ℕ) × (pack o f vs ≡ some bs)
unfolding pack
Fits-pack o [] [] h = ([], refl)
Fits-pack o [] (v ∷ vs) h = absurd h
Fits-pack o (w ∷ f) [] h = absurd h
Fits-pack o (w ∷ f) (v ∷ vs) h =
    let (rest, e) = Fits-pack o f vs h.1 in (to_bytes o w v ++ rest, rw e (ground arith))

pub pack-Fits :
    (o : Order) (f : Format) (vs : List ℕ) {bs : List ℕ} → pack o f vs ≡ some bs → Fits f vs
unfolding pack
pack-Fits o [] [] h = tt
pack-Fits o [] (v ∷ vs) h = cc
pack-Fits o (w ∷ f) [] h = cc
pack-Fits o (w ∷ f) (v ∷ vs) h = elim (Option-cases (pack o f vs)) [
  | inl e ↦ absurd (ground arith)
  | inr (rest, e) ↦ (ground arith, pack-Fits o f vs e)
]

-- Reading back what `pack` wrote, whatever follows it.
pub unpack_from-pack :
    (o : Order) (f : Format) (vs rest : List ℕ) {bs : List ℕ}
    → pack o f vs ≡ some bs
    → unpack_from o f (bs ++ rest) ≡ some vs
unfolding pack unpack_from
unpack_from-pack o [] [] rest h = ground arith
unpack_from-pack o [] (v ∷ vs) rest h = cc
unpack_from-pack o (w ∷ f) [] rest h = cc
unpack_from-pack o (w ∷ f) (v ∷ vs) rest {bs} h = elim (Option-cases (pack o f vs)) [
  | inl e ↦ absurd (ground arith)
  | inr (bs', e) ↦ ground (
    arith,
    append_assoc (to_bytes o w v) bs' rest,
    split_at?-append w (to_bytes o w v) (bs' ++ rest) (length-to_bytes o w v),
    from_bytes-to_bytes o w v,
    unpack_from-pack o f vs rest e,
  )
]

pub unpack-pack :
    (o : Order) (f : Format) (vs : List ℕ) {bs : List ℕ}
    → pack o f vs ≡ some bs
    → unpack o f bs ≡ some vs
unfolding unpack
unpack-pack o f vs {bs} h =
    ground (arith, append-nil bs, unpack_from-pack o f vs [] h, length-pack o f vs h)

-- A shorter format reads the first fields of what a longer one reads.
pub unpack_from-prefix :
    (o : Order) (f g : Format) (us vs bs : List ℕ)
    → length us ≡ length f
    → unpack_from o (f ++ g) bs ≡ some (us ++ vs)
    → unpack_from o f bs ≡ some us
unfolding unpack_from
unpack_from-prefix o [] g [] vs bs n h = refl
unpack_from-prefix o [] g (u ∷ us) vs bs n h = absurd (omega arith)
unpack_from-prefix o (w ∷ f) g [] vs bs n h = absurd (omega arith)
unpack_from-prefix o (w ∷ f) g (u ∷ us) vs bs n h = elim (Option-cases (split_at? w bs)) [
  | inl e ↦ absurd (ground arith)
  | inr ((front, rest), e) ↦ ground (arith, unpack_from-prefix o f g us vs rest (omega arith))
]
