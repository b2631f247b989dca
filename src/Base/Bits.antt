-- ===== src/Base/Bits.antt =====
-- The bits of a word, and what `&` and `|` do to them.
use Prim.Native.Nat.{
  ℕ, zero, suc, ◌+◌, ◌*◌, ◌/◌, ◌%◌, ◌^◌, ◌≤◌, min, max, bit_and, bit_or, digits, bit_and-bitwise,
  bit_or-bitwise,
}
use mathlib.Core.Path.{◌≡◌, refl, ap, ◌∙◌}
use native.Mathlib.Nat.{pow-suc}
use native.Mathlib.Omega.{arith}

-- Bit number `i`, as 0 or 1.
unfoldable pub bit : ℕ → ℕ → ℕ
bit zero a = a % 2
bit (suc i) a = bit i (a / 2)

pub bit_le : (i a : ℕ) → bit i a ≤ 1
unfolding bit
bit_le zero a = omega arith
bit_le (suc i) a = bit_le i (a / 2)

-- The count of digits to go does not matter once it is large enough.
digits_fuel :
    (z : ℕ → ℕ) (f : ℕ → ℕ → ℕ) (n m a b : ℕ) → a ≤ n → a ≤ m → digits z f n a b ≡ digits z f m a b
digits_fuel z f zero zero a b p q = refl
digits_fuel z f zero (suc m) zero b p q = refl
digits_fuel z f zero (suc m) (suc a) b p q = absurd (omega arith)
digits_fuel z f (suc n) zero zero b p q = refl
digits_fuel z f (suc n) zero (suc a) b p q = absurd (omega arith)
digits_fuel z f (suc n) (suc m) zero b p q = refl
digits_fuel z f (suc n) (suc m) (suc a) b p q =
    omega (arith, digits_fuel z f n m (suc a / 2) (b / 2) (omega arith) (omega arith))

bit_and_step : (a b : ℕ) → bit_and a b ≡ bit_and (a / 2) (b / 2) * 2 + min (a % 2) (b % 2)
bit_and_step zero b = omega (arith, bit_and-bitwise 0 b, bit_and-bitwise 0 (b / 2))
bit_and_step (suc a) b = omega (
  arith,
  bit_and-bitwise (suc a) b,
  bit_and-bitwise (suc a / 2) (b / 2),
  digits_fuel (λ b. zero) min a (suc a / 2) (suc a / 2) (b / 2) (omega arith) (omega arith),
)

bit_or_step : (a b : ℕ) → bit_or a b ≡ bit_or (a / 2) (b / 2) * 2 + max (a % 2) (b % 2)
bit_or_step zero b = omega (arith, bit_or-bitwise 0 b, bit_or-bitwise 0 (b / 2))
bit_or_step (suc a) b = omega (
  arith,
  bit_or-bitwise (suc a) b,
  bit_or-bitwise (suc a / 2) (b / 2),
  digits_fuel (λ b. b) max a (suc a / 2) (suc a / 2) (b / 2) (omega arith) (omega arith),
)

pub bit-bit_and : (i a b : ℕ) → bit i (bit_and a b) ≡ min (bit i a) (bit i b)
unfolding bit
bit-bit_and zero a b = omega (arith, bit_and_step a b)
bit-bit_and (suc i) a b =
    ap (bit i)
      (let e : bit_and a b / 2 ≡ bit_and (a / 2) (b / 2) = omega (arith, bit_and_step a b) in e)
    ∙ bit-bit_and i (a / 2) (b / 2)

pub bit-bit_or : (i a b : ℕ) → bit i (bit_or a b) ≡ max (bit i a) (bit i b)
unfolding bit
bit-bit_or zero a b = omega (arith, bit_or_step a b)
bit-bit_or (suc i) a b =
    ap (bit i)
      (let e : bit_or a b / 2 ≡ bit_or (a / 2) (b / 2) = omega (arith, bit_or_step a b) in e)
    ∙ bit-bit_or i (a / 2) (b / 2)

zero_bit_and_zero : (n a : ℕ) → a ≤ n → bit_and a 0 ≡ 0
zero_bit_and_zero n zero h = bit_and-bitwise 0 0
zero_bit_and_zero zero (suc a) h = absurd (omega arith)
zero_bit_and_zero (suc n) (suc a) h =
    omega (arith, bit_and_step (suc a) 0, zero_bit_and_zero n (suc a / 2) (omega arith))

-- A mask of one bit leaves that bit.
pub bit_and-two_pow : (i a : ℕ) → bit_and a (2 ^ i) ≡ bit i a * 2 ^ i
unfolding bit
bit_and-two_pow zero a = omega (arith, bit_and_step a 1, zero_bit_and_zero (a / 2) (a / 2))
bit_and-two_pow (suc i) a =
    let half : 2 ^ i * 2 / 2 ≡ 2 ^ i = omega arith in
    let step = rw half at (bit_and_step a (2 ^ i * 2)) in
    rw (pow-suc 2 i) (
      omega
        (arith, step, bit_and-two_pow i (a / 2), ap (λ (t : ℕ). t * 2) (bit_and-two_pow i (a / 2))))
