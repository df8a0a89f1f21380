-- ===== src/Base/Bits.antt =====
-- `&` and `|` with masks and shifts, at variables.
use Prim.Native.Nat.{
  ℕ, zero, suc, ◌+◌, ◌-◌, ◌*◌, ◌/◌, ◌%◌, ◌^◌, ◌≤◌, ◌<◌, min, max, bit_and, bit_or, digits,
  bit_and-bitwise, bit_or-bitwise,
}
use mathlib.Core.Path.{◌≡◌, refl, sym, ap, ◌∙◌}
use mathlib.Core.Bool.{Bool, true, ◌&&◌}
use native.Mathlib.Nat.{pow-suc, div-div-eq-div-mul, div-add-mod}
use native.Mathlib.Omega.{arith}

-- Whether a test holds of every number under a bound, by evaluation.
unfoldable pub all_below : ℕ → (ℕ → Bool) → Bool
all_below zero test = true
all_below (suc top) test = all_below top test && test top

pub all_below_sound :
    (bound : ℕ) (test : ℕ → Bool) (v : ℕ) → all_below bound test ≡ true → v < bound → test v ≡ true
unfolding all_below
all_below_sound zero test v passed small = absurd (omega arith)
all_below_sound (suc top) test v passed small = ground (arith, all_below_sound top test v)

-- An operation by binary digits: `rest` is its value where the first number is used up.
module _ (rest : ℕ → ℕ) (op : ℕ → ℕ → ℕ) where
  digits_zero : (fuel y : ℕ) → digits rest op fuel 0 y ≡ rest y
  digits_zero zero y = refl
  digits_zero (suc fuel) y = refl

  -- Any fuel from the first number on gives the same digits.
  digits_enough :
      (x more y : ℕ) (fuel : ℕ)
      → x ≤ fuel
      → digits rest op (fuel + more) x y ≡ digits rest op fuel x y
  digits_enough zero more y fuel le = digits_zero (fuel + more) y ∙ sym (digits_zero fuel y)
  digits_enough (suc x) more y zero le = absurd (omega arith)
  digits_enough (suc x) more y (suc fuel) le =
      let deeper : suc fuel + more ≡ suc (fuel + more) = omega arith in
      rw deeper (
        ap (λ (t : ℕ). t * 2 + op (suc x % 2) (y % 2))
          (digits_enough (suc x / 2) more (y / 2) fuel (omega arith)))

  -- The lowest digit, and the others with their own fuel.
  digits_low :
      (x y : ℕ)
      → digits rest op (suc x) (suc x) y
        ≡ digits rest op (suc x / 2) (suc x / 2) (y / 2) * 2 + op (suc x % 2) (y % 2)
  digits_low x y =
      let split : suc x / 2 + (x - suc x / 2) ≡ x = omega arith in
      ap (λ (t : ℕ). t * 2 + op (suc x % 2) (y % 2))
        (rw split at (digits_enough (suc x / 2) (x - suc x / 2) (y / 2) (suc x / 2) (omega arith)))

pub bit_and_step : (x y : ℕ) → bit_and x y ≡ bit_and (x / 2) (y / 2) * 2 + min (x % 2) (y % 2)
bit_and_step zero y = omega (arith, bit_and-bitwise 0 y, bit_and-bitwise 0 (y / 2))
bit_and_step (suc x) y = omega (
  arith,
  digits_low (λ t. zero) min x y,
  bit_and-bitwise (suc x / 2) (y / 2),
  bit_and-bitwise (suc x) y,
)

pub bit_or_step : (x y : ℕ) → bit_or x y ≡ bit_or (x / 2) (y / 2) * 2 + max (x % 2) (y % 2)
bit_or_step zero y = omega (arith, bit_or-bitwise 0 y, bit_or-bitwise 0 (y / 2))
bit_or_step (suc x) y = omega (
  arith,
  digits_low (λ t. t) max x y,
  bit_or-bitwise (suc x / 2) (y / 2),
  bit_or-bitwise (suc x) y,
)

-- Zero on the right, for all numbers up to a bound.
zeros_below : (bound x : ℕ) → x ≤ bound → (bit_and x 0 ≡ 0) × (bit_or x 0 ≡ x)
zeros_below bound zero le = (refl, refl)
zeros_below zero (suc x) le = absurd (omega arith)
zeros_below (suc bound) (suc x) le =
    let (none_left, all_left) = zeros_below bound (suc x / 2) (omega arith) in
    (omega (arith, bit_and_step (suc x) 0), omega (arith, bit_or_step (suc x) 0))

-- `a & (2^k - 1)`, with the bits above the mask written out.
and_mask_parts : (k m a : ℕ) → m + 1 ≡ 2 ^ k → bit_and a m + a / 2 ^ k * 2 ^ k ≡ a
and_mask_parts zero m a h =
    let e : m ≡ 0 = omega arith in rw e (omega (arith, (zeros_below a a (omega arith)).0))
and_mask_parts (suc k) m a h = grind (
  arith,
  pow-suc 2 k,
  bit_and_step a m,
  and_mask_parts k (m / 2) (a / 2) (omega (arith, pow-suc 2 k)),
  div-div-eq-div-mul a 2 (2 ^ k),
)

pow_pos : (k : ℕ) → 0 < 2 ^ k
pow_pos zero = omega arith
pow_pos (suc k) = omega (arith, pow_pos k, pow-suc 2 k)

-- `a & (2^k - 1)` is the remainder of `a` by `2^k`.
pub bit_and_mask : (k a : ℕ) → bit_and a (2 ^ k - 1) ≡ a % 2 ^ k
bit_and_mask k a =
    omega (arith, and_mask_parts k (2 ^ k - 1) a (omega (arith, pow_pos k)), div-add-mod a (2 ^ k))

-- `(a << k) | b` is a sum where `b` has at most `k` bits.
or_shift : (k a b c : ℕ) → b < 2 ^ k → c ≡ a * 2 ^ k → bit_or c b ≡ c + b
or_shift zero a b c h e =
    let z : b ≡ 0 = omega arith in rw z (omega (arith, (zeros_below c c (omega arith)).1))
or_shift (suc k) a b c h e = grind (
  arith,
  pow-suc 2 k,
  bit_or_step c b,
  or_shift k a (b / 2) (c / 2) (omega (arith, pow-suc 2 k))
      (omega (arith, ap (λ (t : ℕ). a * t) (pow-suc 2 k))),
  ap (λ (t : ℕ). a * t) (pow-suc 2 k),
)

pub bit_or_shift : (k a b : ℕ) → b < 2 ^ k → bit_or (a * 2 ^ k) b ≡ a * 2 ^ k + b
bit_or_shift k a b h = or_shift k a b (a * 2 ^ k) h refl
