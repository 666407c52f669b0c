-- ===== src/Prelude/Bits.antt =====
-- Laws of the bit operations at variables, for flag words.
use Prim.Native.Nat.{
  ℕ, zero, suc, ◌+◌, ◌*◌, ◌/◌, ◌%◌, ◌≤◌, min, max, bit_and, bit_or, digits, bitwise,
  bit_and-bitwise, bit_or-bitwise,
}
use mathlib.Core.Path.{◌≡◌, refl, sym, ap, ◌∙◌}
use mathlib.Core.Logic.{◌↔◌}
use mathlib.Core.Bool.{Bool, false, not, ◌||◌}
use native.Mathlib.Omega.{arith}
use emi.Prelude.Tests.{◌==◌, leb, leb→le, Bool-cases}
use mathlib.Core.Logic.{inl, inr}

-- `flag & mask` as a C truth value.
unfoldable pub has : ℕ → ℕ → Bool
has flag mask = not (bit_and flag mask == 0)

-- The recursion on digits that the native operations stand for, whatever it does with two digits.
module _ (stop : ℕ → ℕ) (join : ℕ → ℕ → ℕ) where
  spare_digit : (n x y : ℕ) → x ≤ n → digits stop join (suc n) x y ≡ digits stop join n x y
  spare_digit zero zero y h = refl
  spare_digit zero (suc x) y h = absurd (omega arith)
  spare_digit (suc n) zero y h = refl
  spare_digit (suc n) (suc x) y h =
      ap (λ r. r * 2 + join (suc x % 2) (y % 2)) (spare_digit n (suc x / 2) (y / 2) (omega arith))

  enough_digits : (n x y : ℕ) → x ≤ n → digits stop join n x y ≡ bitwise stop join x y
  enough_digits zero zero y h = refl
  enough_digits zero (suc x) y h = absurd (omega arith)
  enough_digits (suc n) x y h = elim (Bool-cases (leb x n)) [
    | inl e ↦ spare_digit n x y (leb→le x n e) ∙ enough_digits n x y (leb→le x n e)
    | inr e ↦ let full : suc n ≡ x = ground arith in ap (λ k. digits stop join k x y) full
  ]

  peel :
      (x y : ℕ)
      → bitwise stop join (suc x) y
        ≡ bitwise stop join (suc x / 2) (y / 2) * 2 + join (suc x % 2) (y % 2)
  peel x y =
      ap (λ r. r * 2 + join (suc x % 2) (y % 2)) (enough_digits x (suc x / 2) (y / 2) (omega arith))

no_and : (y : ℕ) → bit_and 0 y ≡ 0
no_and = bit_and-bitwise 0

no_or : (y : ℕ) → bit_or 0 y ≡ y
no_or = bit_or-bitwise 0

and_low : (x y : ℕ) → bit_and x y ≡ bit_and (x / 2) (y / 2) * 2 + min (x % 2) (y % 2)
and_low zero y = omega (arith, no_and y, no_and (y / 2))
and_low (suc x) y =
    bit_and-bitwise (suc x) y
    ∙ peel (λ b. zero) min x y
    ∙ ap (λ r. r * 2 + min (suc x % 2) (y % 2)) (sym (bit_and-bitwise (suc x / 2) (y / 2)))

or_low : (x y : ℕ) → bit_or x y ≡ bit_or (x / 2) (y / 2) * 2 + max (x % 2) (y % 2)
or_low zero y = omega (arith, no_or y, no_or (y / 2))
or_low (suc x) y =
    bit_or-bitwise (suc x) y
    ∙ peel (λ b. b) max x y
    ∙ ap (λ r. r * 2 + max (suc x % 2) (y % 2)) (sym (bit_or-bitwise (suc x / 2) (y / 2)))

empty_digits : (n x : ℕ) → digits (λ b. zero) min n x 0 ≡ 0
empty_digits zero x = refl
empty_digits (suc n) zero = refl
empty_digits (suc n) (suc x) = omega (arith, empty_digits n (suc x / 2))

and_empty : (x : ℕ) → bit_and x 0 ≡ 0
and_empty x = bit_and-bitwise x 0 ∙ empty_digits x x

or_parts :
    (a b : ℕ) → (bit_or a b / 2 ≡ bit_or (a / 2) (b / 2)) × (bit_or a b % 2 ≡ max (a % 2) (b % 2))
or_parts a b = omega (arith, or_low a b)

-- A masked `|` is zero exactly when both masked operands are.
or_zero_fuel :
    (n a b m : ℕ) → m ≤ n → (bit_and (bit_or a b) m ≡ 0) ↔ ((bit_and a m ≡ 0) × (bit_and b m ≡ 0))
or_zero_fuel n a b zero h = (λ _. (and_empty a, and_empty b), λ _. and_empty (bit_or a b))
or_zero_fuel zero a b (suc m) h = absurd (omega arith)
or_zero_fuel (suc n) a b (suc m) h =
    let m' = suc m in
    let ih = or_zero_fuel n (a / 2) (b / 2) (m' / 2) (omega arith) in
    let s = and_low (bit_or a b) m' in
    let e = ap (λ x. bit_and x (m' / 2)) (or_parts a b).0 in
    let sa = and_low a m' in
    let sb = and_low b m' in
    (
      λ z. (
        omega (arith, or_parts a b, ih.0 (omega arith)),
        omega (arith, or_parts a b, ih.0 (omega arith)),
      ),
      λ z. omega (arith, or_parts a b, ih.1 (omega arith, omega arith)),
    )

pub has-bit_or : (a b m : ℕ) → has (bit_or a b) m ≡ (has a m || has b m)
unfolding has
has-bit_or a b m = let e = or_zero_fuel m a b m (omega arith) in ground (arith, e)

mask_3 : (a : ℕ) → bit_and a 3 ≡ a % 4
mask_3 a = omega (arith, and_low a 3, and_low (a / 2) 1, and_empty (a / 2 / 2))

-- Four more ones in a mask.
mask_15 : (a : ℕ) → bit_and a 15 ≡ a % 16
mask_15 a = omega (arith, and_low a 15, and_low (a / 2) 7, mask_3 (a / 2 / 2))

mask_255 : (a : ℕ) → bit_and a 255 ≡ a % 256
mask_255 a = omega (
  arith,
  and_low a 255,
  and_low (a / 2) 127,
  and_low (a / 2 / 2) 63,
  and_low (a / 2 / 2 / 2) 31,
  mask_15 (a / 2 / 2 / 2 / 2),
)

pub mask_4095 : (a : ℕ) → bit_and a 4095 ≡ a % 4096
mask_4095 a = omega (
  arith,
  and_low a 4095,
  and_low (a / 2) 2047,
  and_low (a / 2 / 2) 1023,
  and_low (a / 2 / 2 / 2) 511,
  mask_255 (a / 2 / 2 / 2 / 2),
)

pub has_none : (m : ℕ) → has 0 m ≡ false
unfolding has
has_none m = rw (no_and m)

-- A bit that a mask takes away is away.
masked_off_within : (n x y z : ℕ) → x ≤ n → bit_and y z ≡ 0 → bit_and (bit_and x y) z ≡ 0
masked_off_within n zero y z h apart = rw (no_and y) (no_and z)
masked_off_within zero (suc x) y z h apart = absurd (omega arith)
masked_off_within (suc n) (suc x) y z h apart =
    let low : (bit_and (suc x) y / 2 ≡ bit_and (suc x / 2) (y / 2))
        × (bit_and (suc x) y % 2 ≡ min (suc x % 2) (y % 2)) =
      omega (arith, and_low (suc x) y) in
    let rest =
      masked_off_within n (suc x / 2) (y / 2) (z / 2) (omega arith)
        (omega (arith, apart, and_low y z)) in
    omega (
      arith,
      and_low (bit_and (suc x) y) z,
      ap (λ k. bit_and k (z / 2)) low.0,
      low.1,
      rest,
      apart,
      and_low y z,
    )

pub masked_off : (x y z : ℕ) → bit_and y z ≡ 0 → bit_and (bit_and x y) z ≡ 0
masked_off x y z = masked_off_within x x y z (omega arith)

-- A bit that a mask keeps stays as it is.
masked_on_within : (n x y z : ℕ) → x ≤ n → bit_and y z ≡ z → bit_and (bit_and x y) z ≡ bit_and x z
masked_on_within n zero y z h kept = rw (no_and y) refl
masked_on_within zero (suc x) y z h kept = absurd (omega arith)
masked_on_within (suc n) (suc x) y z h kept =
    let low : (bit_and (suc x) y / 2 ≡ bit_and (suc x / 2) (y / 2))
        × (bit_and (suc x) y % 2 ≡ min (suc x % 2) (y % 2)) =
      omega (arith, and_low (suc x) y) in
    let rest =
      masked_on_within n (suc x / 2) (y / 2) (z / 2) (omega arith)
        (omega (arith, kept, and_low y z)) in
    omega (
      arith,
      and_low (bit_and (suc x) y) z,
      and_low (suc x) z,
      ap (λ k. bit_and k (z / 2)) low.0,
      low.1,
      rest,
      kept,
      and_low y z,
    )

pub masked_on : (x y z : ℕ) → bit_and y z ≡ z → bit_and (bit_and x y) z ≡ bit_and x z
masked_on x y z = masked_on_within x x y z (omega arith)
