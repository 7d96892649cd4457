-- ===== src/Common/Bits.antt =====
-- The masks and shifts of one byte as arithmetic. Each law over a mask is checked at every byte;
-- the law that joins a shifted word and a byte comes from the digits of `bit_or`.
use Prim.Native.Nat.{
  ℕ, zero, suc, ◌+◌, ◌*◌, ◌/◌, ◌%◌, ◌≤◌, ◌<◌, max, bit_and, bit_or, digits, bit_or-bitwise,
}
use mathlib.Core.Path.{◌≡◌, refl, sym, ◌∙◌}
use mathlib.Core.Bool.{Bool, true, false}
use mathlib.Core.Logic.{ite}
use native.Mathlib.Decide.{ℕ_discrete}
use native.Mathlib.Nat.{add-zero}
use native.Mathlib.Omega.{arith}

module _ (f g : ℕ → ℕ) where
  same_below : ℕ → Bool
  unfolding ℕ_discrete
  same_below zero = true
  same_below (suc n) = ite (ℕ_discrete (f n) (g n)) (same_below n) false

  same_below→eq : (n : ℕ) → same_below n ≡ true → (i : ℕ) → i < n → f i ≡ g i
  unfolding same_below
  same_below→eq zero e i h = absurd (omega arith)
  same_below→eq (suc n) e i h = ground (arith, same_below→eq n (ground arith) i)

pub bit_and-0x3f : (b : ℕ) → b < 256 → bit_and b 0x3f ≡ b % 64
unfolding same_below
bit_and-0x3f = same_below→eq _ _ 256 refl

pub bit_or-0x40 : (x : ℕ) → x < 64 → bit_or 0x40 x ≡ 64 + x
unfolding same_below
bit_or-0x40 = same_below→eq _ _ 64 refl

pub bit_or-0x80 : (x : ℕ) → x < 64 → bit_or 0x80 x ≡ 128 + x
unfolding same_below
bit_or-0x80 = same_below→eq _ _ 64 refl

pub bit_or-0xc0 : (x : ℕ) → x < 64 → bit_or 0xc0 x ≡ 192 + x
unfolding same_below
bit_or-0xc0 = same_below→eq _ _ 64 refl

-- The digits of `bit_or`: how many are looked at does not matter, once it is enough.
abbrev or_digits : ℕ → ℕ → ℕ → ℕ
or_digits n a b = digits (λ b. b) max n a b

or_digits_fuel : (n m a b : ℕ) → a ≤ n → a ≤ m → or_digits n a b ≡ or_digits m a b
or_digits_fuel zero zero a b p q = refl
or_digits_fuel zero (suc m) zero b p q = refl
or_digits_fuel zero (suc m) (suc a) b p q = absurd (omega arith)
or_digits_fuel (suc n) zero zero b p q = refl
or_digits_fuel (suc n) zero (suc a) b p q = absurd (omega arith)
or_digits_fuel (suc n) (suc m) zero b p q = refl
or_digits_fuel (suc n) (suc m) (suc a) b p q =
    omega (arith, or_digits_fuel n m (suc a / 2) (b / 2) (omega arith) (omega arith))

zero-bit_or : (b : ℕ) → bit_or 0 b ≡ b
zero-bit_or b = bit_or-bitwise 0 b

bit_or_step : (a b : ℕ) → bit_or a b ≡ bit_or (a / 2) (b / 2) * 2 + max (a % 2) (b % 2)
bit_or_step zero b = omega (arith, zero-bit_or b, zero-bit_or (b / 2))
bit_or_step (suc a) b = omega (
  arith,
  bit_or-bitwise (suc a) b,
  bit_or-bitwise (suc a / 2) (b / 2),
  or_digits_fuel a (suc a / 2) (suc a / 2) (b / 2) (omega arith) (omega arith),
)

bit_or-zero_fuel : (n a : ℕ) → a ≤ n → bit_or a 0 ≡ a
bit_or-zero_fuel n zero h = refl
bit_or-zero_fuel zero (suc a) h = absurd (omega arith)
bit_or-zero_fuel (suc n) (suc a) h =
    omega (arith, bit_or_step (suc a) 0, bit_or-zero_fuel n (suc a / 2) (omega arith))

bit_or-zero : (a : ℕ) → bit_or a 0 ≡ a
bit_or-zero a = bit_or-zero_fuel a a (omega arith)

-- One bit more of room for the second number.
bit_or_double : (a b : ℕ) → bit_or a (b / 2) ≡ a + b / 2 → bit_or (a * 2) b ≡ a * 2 + b
bit_or_double a b e =
    let half : (a * 2) / 2 ≡ a = omega arith in
    let step : bit_or (a * 2) b ≡ bit_or a (b / 2) * 2 + max ((a * 2) % 2) (b % 2) =
      rw half at (bit_or_step (a * 2) b) in
    omega (arith, step)

-- `n << 8 | byte` is a sum, as the shift leaves room for the byte.
pub bit_or_byte : (a b : ℕ) → b < 256 → bit_or (a * 256) b ≡ a * 256 + b
bit_or_byte a b h =
    let shape : a * 256 ≡ a * 2 * 2 * 2 * 2 * 2 * 2 * 2 * 2 = omega arith in
    let none_left : b / 2 / 2 / 2 / 2 / 2 / 2 / 2 / 2 ≡ 0 = omega arith in
    rw shape (
      bit_or_double _ b (
        bit_or_double _ _ (
          bit_or_double _ _ (
            bit_or_double _ _ (
              bit_or_double _ _ (
                bit_or_double _ _ (
                  bit_or_double _ _
                    (bit_or_double a _ (rw none_left (bit_or-zero a ∙ sym (add-zero a)))))))))))
