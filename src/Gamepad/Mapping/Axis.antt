-- ===== src/Gamepad/Mapping/Axis.antt =====
-- The axes: range, direction, centre and ends.
use niw_pspto_pc.Base.{
  ℕ, zero, suc, ◌+◌, ◌-◌, ◌≤◌, ◌<◌, ◌≡◌, refl, ap, Bool, true, false, Option, none, some, ltb, leb,
  ◌&&◌, arith,
}
use niw_pspto_pc.Base.Bits.{all_below, all_below_sound}
use niw_pspto_pc.Base.Int.{ℤ, pos, negsuc, pos_part, neg_part, ◌≤ℤ◌}
use niw_pspto_pc.Gamepad.Mapping.{horizontal_axis, vertical_axis}

-- The order of the integers below the 16-bit range, shifted into the numbers.
abbrev pub level : Option ℤ → ℕ
level none = 0
level (some x) = pos_part x + 32768 - neg_part x

abbrev is_int16 : Option ℤ → Bool
is_int16 none = false
is_int16 (some x) = leb (neg_part x) 32768 && leb (pos_part x) 32767

-- A 16-bit value of the axis.
abbrev pub IsInt16 : ℤ → Type 0
IsInt16 x = (negsuc 32767 ≤ℤ x) × (x ≤ℤ pos 32767)

horizontal_table :
    all_below 256 (λ v. is_int16 (horizontal_axis v))
      && all_below 255 (λ v. ltb (level (horizontal_axis v)) (level (horizontal_axis (v + 1))))
    ≡ true
unfolding all_below horizontal_axis
horizontal_table = refl

vertical_table :
    all_below 256 (λ v. is_int16 (vertical_axis v))
      && all_below 255 (λ v. ltb (level (vertical_axis (v + 1))) (level (vertical_axis v)))
    ≡ true
unfolding all_below vertical_axis
vertical_table = refl

and_parts : (a b : Bool) → (a && b) ≡ true → (a ≡ true) × (b ≡ true)
and_parts a b h = ground arith

IsInt16-parts : (o : Option ℤ) → is_int16 o ≡ true → (x : ℤ) × (o ≡ some x) × IsInt16 x
IsInt16-parts none h = cc
IsInt16-parts (some x) h = (x, refl, (ground arith, ground arith))

zero_more : (v : ℕ) → v + zero ≡ v
zero_more v = omega arith

one_more : (v k : ℕ) → v + suc k ≡ v + k + 1
one_more v k = omega arith

ltb→lt : (a b : ℕ) → ltb a b ≡ true → a < b
ltb→lt a b h = ground arith

rising :
    (f : ℕ → ℕ) (k v : ℕ)
    → ((u : ℕ) → u < 255 → f u < f (u + 1))
    → v + suc k ≤ 255
    → f v < f (v + suc k)
rising f zero v step h =
    omega
      (arith, step v (omega arith), ap f (one_more v zero), ap (λ (t : ℕ). f (t + 1)) (zero_more v))
rising f (suc k) v step h =
    let last : f (v + suc k) < f (v + suc k + 1) = step (v + suc k) (omega arith) in
    let before : f v < f (v + suc k) = rising f k v step (omega arith) in
    below (ap f (one_more v (suc k))) last before
  where
    below : {a b c d : ℕ} → d ≡ c → b < c → a < b → a < d
    below e p q = omega arith

falling :
    (f : ℕ → ℕ) (k v : ℕ)
    → ((u : ℕ) → u < 255 → f (u + 1) < f u)
    → v + suc k ≤ 255
    → f (v + suc k) < f v
falling f zero v step h =
    omega
      (arith, step v (omega arith), ap f (one_more v zero), ap (λ (t : ℕ). f (t + 1)) (zero_more v))
falling f (suc k) v step h =
    let last : f (v + suc k + 1) < f (v + suc k) = step (v + suc k) (omega arith) in
    let before : f (v + suc k) < f v = falling f k v step (omega arith) in
    below (ap f (one_more v (suc k))) last before
  where
    below : {a b c d : ℕ} → d ≡ c → c < b → b < a → d < a
    below e p q = omega arith

-- Strictly below, as integers.
infix 50 ◌<ℤ◌
abbrev pub ◌<ℤ◌ : ℤ → ℤ → Type 0
a <ℤ b = pos_part a + neg_part b < pos_part b + neg_part a

level_lt : (x y : ℤ) → IsInt16 x → IsInt16 y → level (some x) < level (some y) → x <ℤ y
level_lt (pos n) (pos m) hx hy h = omega arith
level_lt (pos n) (negsuc m) hx hy h = omega arith
level_lt (negsuc n) (pos m) hx hy h = omega arith
level_lt (negsuc n) (negsuc m) hx hy h = omega arith

horizontal-IsInt16 : (v : ℕ) → v ≤ 255 → (x : ℤ) × (horizontal_axis v ≡ some x) × IsInt16 x
horizontal-IsInt16 v h =
    IsInt16-parts (horizontal_axis v)
      (all_below_sound 256 _ v (and_parts _ _ horizontal_table).0 (omega arith))

vertical-IsInt16 : (v : ℕ) → v ≤ 255 → (x : ℤ) × (vertical_axis v ≡ some x) × IsInt16 x
vertical-IsInt16 v h =
    IsInt16-parts (vertical_axis v)
      (all_below_sound 256 _ v (and_parts _ _ vertical_table).0 (omega arith))

horizontal_step : (u : ℕ) → u < 255 → level (horizontal_axis u) < level (horizontal_axis (u + 1))
horizontal_step u h = ltb→lt _ _ (
    all_below_sound 255 (λ v. ltb (level (horizontal_axis v)) (level (horizontal_axis (v + 1)))) u
      (and_parts _ _ horizontal_table).1 h)

vertical_step : (u : ℕ) → u < 255 → level (vertical_axis (u + 1)) < level (vertical_axis u)
vertical_step u h = ltb→lt _ _ (
    all_below_sound 255 (λ v. ltb (level (vertical_axis (v + 1))) (level (vertical_axis v))) u
      (and_parts _ _ vertical_table).1 h)

-- Every byte gives a 16-bit horizontal value, a larger byte a larger value; the ends of the stick
-- reach the ends of the range, and 128 is the centre.
pub horizontal_axis_order :
    (v w : ℕ)
    → v < w
    → w ≤ 255
    → (x : ℤ) × (y : ℤ) × (horizontal_axis v ≡ some x)
      × (horizontal_axis w ≡ some y)
      × IsInt16 x
      × IsInt16 y
      × (x <ℤ y)
      × (horizontal_axis 0 ≡ some (negsuc 32767))
      × (horizontal_axis 128 ≡ some (pos 0))
      × (horizontal_axis 255 ≡ some (pos 32767))
unfolding horizontal_axis
horizontal_axis_order v w lt le =
    let (x, ex, hx) = horizontal-IsInt16 v (omega arith) in
    let (y, ey, hy) = horizontal-IsInt16 w le in
    let far = rising (λ u. level (horizontal_axis u)) (w - v - 1) v horizontal_step (omega arith) in
    let apart : w ≡ v + suc (w - v - 1) = omega arith in
    let up : level (horizontal_axis v) < level (horizontal_axis w) = rw apart far in
    (x, y, ex, ey, hx, hy, level_lt x y hx hy (rw (ex, ey) at up), refl, refl, refl)

-- Every byte gives a 16-bit vertical value, a larger byte (further down) a smaller value; the ends
-- of the stick reach the ends of the range, and 128 is the centre.
pub vertical_axis_order :
    (v w : ℕ)
    → v < w
    → w ≤ 255
    → (x : ℤ) × (y : ℤ) × (vertical_axis v ≡ some x)
      × (vertical_axis w ≡ some y)
      × IsInt16 x
      × IsInt16 y
      × (y <ℤ x)
      × (vertical_axis 0 ≡ some (pos 32767))
      × (vertical_axis 128 ≡ some (pos 0))
      × (vertical_axis 255 ≡ some (negsuc 32767))
unfolding vertical_axis
vertical_axis_order v w lt le =
    let (x, ex, hx) = vertical-IsInt16 v (omega arith) in
    let (y, ey, hy) = vertical-IsInt16 w le in
    let far = falling (λ u. level (vertical_axis u)) (w - v - 1) v vertical_step (omega arith) in
    let apart : w ≡ v + suc (w - v - 1) = omega arith in
    let down : level (vertical_axis w) < level (vertical_axis v) = rw apart far in
    (x, y, ex, ey, hx, hy, level_lt y x hy hx (rw (ex, ey) at down), refl, refl, refl)
