-- ===== src/Prelude/Bits.antt =====
-- `&` with a byte mask and `|` of disjoint fields as arithmetic, at every width. The native
-- operations mean a recursion on binary digits; first one equation for the lowest digit.
use Prim.Native.Nat.{
  ℕ, zero, suc, ◌+◌, ◌*◌, ◌/◌, ◌%◌, ◌^◌, ◌≤◌, ◌<◌, min, max, bit_and, bit_or, digits,
  bit_and-bitwise, bit_or-bitwise,
}
use mathlib.Core.Path.{◌≡◌, refl, ap}
use native.Mathlib.Nat.{pow-suc, pow-succ', div-div-eq-div-mul, div-one, mul-one}
use native.Mathlib.Omega.{arith}

-- Any count of digits that reaches the number gives the same value.
digits_count :
    (z : ℕ → ℕ) (f : ℕ → ℕ → ℕ) (m n a b : ℕ) → a ≤ m → a ≤ n → digits z f m a b ≡ digits z f n a b
digits_count z f zero zero a b hm hn = refl
digits_count z f zero (suc n) zero b hm hn = refl
digits_count z f zero (suc n) (suc a) b hm hn = absurd (omega arith)
digits_count z f (suc m) zero zero b hm hn = refl
digits_count z f (suc m) zero (suc a) b hm hn = absurd (omega arith)
digits_count z f (suc m) (suc n) zero b hm hn = refl
digits_count z f (suc m) (suc n) (suc a) b hm hn =
    ap (λ (t : ℕ). t * 2 + f (suc a % 2) (b % 2))
      (digits_count z f m n (suc a / 2) (b / 2) (omega arith) (omega arith))

lowest_and : (a b : ℕ) → bit_and a b ≡ bit_and (a / 2) (b / 2) * 2 + min (a % 2) (b % 2)
lowest_and zero b = omega (arith, bit_and-bitwise 0 b, bit_and-bitwise 0 (b / 2))
lowest_and (suc a) b = omega (
  arith,
  bit_and-bitwise (suc a) b,
  bit_and-bitwise (suc a / 2) (b / 2),
  digits_count (λ b. 0) min a (suc a / 2) (suc a / 2) (b / 2) (omega arith) (omega arith),
)

lowest_or : (a b : ℕ) → bit_or a b ≡ bit_or (a / 2) (b / 2) * 2 + max (a % 2) (b % 2)
lowest_or zero b = omega (arith, bit_or-bitwise 0 b, bit_or-bitwise 0 (b / 2))
lowest_or (suc a) b = omega (
  arith,
  bit_or-bitwise (suc a) b,
  bit_or-bitwise (suc a / 2) (b / 2),
  digits_count (λ b. b) max a (suc a / 2) (suc a / 2) (b / 2) (omega arith) (omega arith),
)

and-zero_upto : (n a : ℕ) → a ≤ n → bit_and a 0 ≡ 0
and-zero_upto n zero h = omega (arith, bit_and-bitwise 0 0)
and-zero_upto zero (suc a) h = absurd (omega arith)
and-zero_upto (suc n) (suc a) h =
    omega (arith, lowest_and (suc a) 0, and-zero_upto n (suc a / 2) (omega arith))

or-zero_upto : (n a : ℕ) → a ≤ n → bit_or a 0 ≡ a
or-zero_upto n zero h = omega (arith, bit_or-bitwise 0 0)
or-zero_upto zero (suc a) h = absurd (omega arith)
or-zero_upto (suc n) (suc a) h =
    omega (arith, lowest_or (suc a) 0, or-zero_upto n (suc a / 2) (omega arith))

pub zero-or : (b : ℕ) → bit_or 0 b ≡ b
zero-or b = bit_or-bitwise 0 b

pub or-zero : (a : ℕ) → bit_or a 0 ≡ a
or-zero a = or-zero_upto a a (omega arith)

-- `v & 0xFF`
and_f : (a : ℕ) → bit_and a 15 ≡ a % 16
and_f a = omega (
  arith,
  lowest_and a 15,
  lowest_and (a / 2) 7,
  lowest_and (a / 2 / 2) 3,
  lowest_and (a / 2 / 2 / 2) 1,
  and-zero_upto (a / 2 / 2 / 2 / 2) (a / 2 / 2 / 2 / 2) (omega arith),
)

pub and_ff : (a : ℕ) → bit_and a 255 ≡ a % 256
and_ff a = omega (
  arith,
  lowest_and a 255,
  lowest_and (a / 2) 127,
  lowest_and (a / 2 / 2) 63,
  lowest_and (a / 2 / 2 / 2) 31,
  and_f (a / 2 / 2 / 2 / 2),
)

double_pow : (b k : ℕ) → b * 2 ^ suc k ≡ 2 * (b * 2 ^ k)
double_pow b k = omega (arith, ap (λ (t : ℕ). b * t) (pow-suc 2 k))

halve_first : (v k : ℕ) → v / 2 ^ suc k ≡ v / 2 / 2 ^ k
halve_first v k = rw (pow-succ' 2 k, ← div-div-eq-div-mul v 2 (2 ^ k))

-- A shifted mask cuts out a shifted field.
pub and_shifted : (k m v : ℕ) → bit_and v (m * 2 ^ k) ≡ bit_and (v / 2 ^ k) m * 2 ^ k
and_shifted zero m v = simp (div-one, mul-one)
and_shifted (suc k) m v = ground (
  arith,
  lowest_and v (m * 2 ^ suc k),
  double_pow m k,
  halve_first v k,
  and_shifted k m (v / 2),
  double_pow (bit_and (v / 2 ^ suc k) m) k,
)

-- `|` of a low field and a high field is their sum, in either order.
pub or_low_high : (k a b : ℕ) → a < 2 ^ k → bit_or a (b * 2 ^ k) ≡ a + b * 2 ^ k
or_low_high zero a b h = ground (arith, zero-or b)
or_low_high (suc k) a b h =
    ground
      (arith, lowest_or a (b * 2 ^ suc k), double_pow b k, pow-suc 2 k, or_low_high k (a / 2) b)

pub or_high_low : (k a b : ℕ) → a < 2 ^ k → bit_or (b * 2 ^ k) a ≡ b * 2 ^ k + a
or_high_low zero a b h = ground (arith, or-zero b)
or_high_low (suc k) a b h =
    ground
      (arith, lowest_or (b * 2 ^ suc k) a, double_pow b k, pow-suc 2 k, or_high_low k (a / 2) b)
