-- ===== src/Base/Bits.antt =====
-- Laws of `|` and `^` at variables: `(x << k) | b` for b below 2 ^ k is `x * 2 ^ k + b`, and what
-- a result of zero says of the operands.
use Prim.Native.Nat.{
  ℕ, zero, suc, ◌+◌, ◌*◌, ◌/◌, ◌%◌, ◌^◌, ◌≤◌, ◌<◌, min, max, differ, bit_and, bit_or, bit_xor,
  digits, bit_and-bitwise, bit_or-bitwise, bit_xor-bitwise,
}
use mathlib.Core.Path.{◌≡◌, refl, ap}
use native.Mathlib.Omega.{arith}
use native.Mathlib.Nat.{pow-suc}

-- `base` is what is left of the second number once the first has run out.
abbrev bits : (ℕ → ℕ) → (ℕ → ℕ → ℕ) → ℕ → ℕ → ℕ → ℕ
bits base f n a b = digits base f n a b

bits_fuel :
    (base : ℕ → ℕ) (f : ℕ → ℕ → ℕ) (a b n m : ℕ)
    → a ≤ m
    → a ≤ n
    → bits base f n a b ≡ bits base f m a b
bits_fuel base f (suc a) b (suc n) (suc m) fits enough =
    let halved = bits_fuel base f (suc a / 2) (b / 2) n m (omega arith) (omega arith) in
    omega (arith, halved)
bits_fuel base f (suc a) b zero m fits enough = absurd (omega arith)
bits_fuel base f (suc a) b (suc n) zero fits enough = absurd (omega arith)
bits_fuel base f zero b (suc n) (suc m) fits enough = refl
bits_fuel base f zero b (suc n) zero fits enough = refl
bits_fuel base f zero b zero (suc m) fits enough = refl
bits_fuel base f zero b zero zero fits enough = refl

zero-bit_or : (b : ℕ) → bit_or 0 b ≡ b
zero-bit_or b = bit_or-bitwise 0 b

bit_or_step : (a b : ℕ) → bit_or a b ≡ bit_or (a / 2) (b / 2) * 2 + max (a % 2) (b % 2)
bit_or_step zero b = omega (arith, zero-bit_or b, zero-bit_or (b / 2))
bit_or_step (suc a) b = omega (
  arith,
  bit_or-bitwise (suc a) b,
  bit_or-bitwise (suc a / 2) (b / 2),
  bits_fuel (λ b. b) max (suc a / 2) (b / 2) a (suc a / 2) (omega arith) (omega arith),
)

bit_or-zero_fuel : (n a : ℕ) → a ≤ n → bit_or a 0 ≡ a
bit_or-zero_fuel n zero h = refl
bit_or-zero_fuel zero (suc a) h = absurd (omega arith)
bit_or-zero_fuel (suc n) (suc a) h =
    omega (arith, bit_or_step (suc a) 0, bit_or-zero_fuel n (suc a / 2) (omega arith))

bit_or-zero : (a : ℕ) → bit_or a 0 ≡ a
bit_or-zero a = bit_or-zero_fuel a a (omega arith)

double : (x k : ℕ) → x * 2 ^ suc k ≡ 2 * (x * 2 ^ k)
double x k = omega (arith, ap (λ (t : ℕ). x * t) (pow-suc 2 k))

pub bit_or-shift : (k x b : ℕ) → b < 2 ^ k → bit_or (x * 2 ^ k) b ≡ x * 2 ^ k + b
bit_or-shift zero x b h =
    let z : b ≡ 0 = omega arith in rw z (omega (arith, bit_or-zero (x * 2 ^ 0)))
bit_or-shift (suc k) x b h =
    let halves : x * 2 ^ suc k / 2 ≡ x * 2 ^ k = omega (arith, double x k) in
    omega (
      arith,
      bit_or_step (x * 2 ^ suc k) b,
      ap (λ (t : ℕ). bit_or t (b / 2)) halves,
      bit_or-shift k x (b / 2) (omega (arith, pow-suc 2 k)),
      double x k,
    )

-- A byte appended to a big-endian number: `(x << 8) | b`.
pub bit_or-byte : (x b : ℕ) → b < 256 → bit_or (x * 256) b ≡ x * 256 + b
bit_or-byte x b h = bit_or-shift 8 x b h

-- `a | b` is zero only if both are.
or_zero_fuel : (n a b : ℕ) → a ≤ n → bit_or a b ≡ 0 → a ≡ 0
or_zero_fuel n zero b h e = refl
or_zero_fuel zero (suc a) b h e = absurd (omega arith)
or_zero_fuel (suc n) (suc a) b h e = omega (
  arith,
  bit_or_step (suc a) b,
  or_zero_fuel n (suc a / 2) (b / 2) (omega arith) (omega (arith, bit_or_step (suc a) b)),
)

pub bit_or_eq_zero : (a b : ℕ) → bit_or a b ≡ 0 → (a ≡ 0) × (b ≡ 0)
bit_or_eq_zero a b e =
    let z : a ≡ 0 = or_zero_fuel a a b (omega arith) e in
    (z, omega (arith, zero-bit_or b, ap (λ (t : ℕ). bit_or t b) z))

zero-bit_xor : (b : ℕ) → bit_xor 0 b ≡ b
zero-bit_xor b = bit_xor-bitwise 0 b

bit_xor_step : (a b : ℕ) → bit_xor a b ≡ bit_xor (a / 2) (b / 2) * 2 + differ (a % 2) (b % 2)
bit_xor_step zero b = omega (arith, zero-bit_xor b, zero-bit_xor (b / 2))
bit_xor_step (suc a) b = omega (
  arith,
  bit_xor-bitwise (suc a) b,
  bit_xor-bitwise (suc a / 2) (b / 2),
  bits_fuel (λ b. b) differ (suc a / 2) (b / 2) a (suc a / 2) (omega arith) (omega arith),
)

differ_self : (a : ℕ) → differ a a ≡ 0
differ_self zero = refl
differ_self (suc a) = differ_self a

differ_eq_zero : (a b : ℕ) → differ a b ≡ 0 → a ≡ b
differ_eq_zero zero b e = omega arith
differ_eq_zero (suc a) zero e = absurd (omega arith)
differ_eq_zero (suc a) (suc b) e = ap suc (differ_eq_zero a b e)

xor_self_fuel : (n a : ℕ) → a ≤ n → bit_xor a a ≡ 0
xor_self_fuel n zero h = refl
xor_self_fuel zero (suc a) h = absurd (omega arith)
xor_self_fuel (suc n) (suc a) h = omega (
  arith,
  bit_xor_step (suc a) (suc a),
  differ_self (suc a % 2),
  xor_self_fuel n (suc a / 2) (omega arith),
)

pub bit_xor_self : (a : ℕ) → bit_xor a a ≡ 0
bit_xor_self a = xor_self_fuel a a (omega arith)

xor_zero_fuel : (n a b : ℕ) → a ≤ n → bit_xor a b ≡ 0 → a ≡ b
xor_zero_fuel n zero b h e = omega (arith, zero-bit_xor b)
xor_zero_fuel zero (suc a) b h e = absurd (omega arith)
xor_zero_fuel (suc n) (suc a) b h e = omega (
  arith,
  xor_zero_fuel n (suc a / 2) (b / 2) (omega arith) (omega (arith, bit_xor_step (suc a) b)),
  differ_eq_zero (suc a % 2) (b % 2) (omega (arith, bit_xor_step (suc a) b)),
)

-- `a ^ b` is zero only if they are equal.
pub bit_xor_eq_zero : (a b : ℕ) → bit_xor a b ≡ 0 → a ≡ b
bit_xor_eq_zero a b e = xor_zero_fuel a a b (omega arith) e

-- One digit of a mask that is not zero, and the digits above it.
mask_halves :
    (test mask : ℕ)
    → min (suc mask % 2) (test % 2) + 2 * bit_and (suc mask / 2) (test / 2)
      ≡ bit_and (suc mask) test
mask_halves test mask =
    let above =
      bits_fuel (λ b. zero) min (suc mask / 2) (test / 2) mask (suc mask / 2) (omega arith)
        (omega arith) in
    let halves = bit_and-bitwise (suc mask / 2) (test / 2) in
    omega (arith, above, halves, bit_and-bitwise (suc mask) test)

-- The binary digit of a mask at a position.
abbrev pub binary_digit : ℕ → ℕ → ℕ
binary_digit zero mask = mask % 2
binary_digit (suc position) mask = binary_digit position (mask / 2)

zero_has_no_digit : (position : ℕ) → binary_digit position 0 ≡ 0
zero_has_no_digit zero = refl
zero_has_no_digit (suc position) = zero_has_no_digit position

-- A mask with a one at a position tests positive there: `mask & (1 << position) != 0`.
pub digit_is_tested :
    (position mask : ℕ) → binary_digit position mask ≡ 1 → 1 ≤ bit_and mask (2 ^ position)
digit_is_tested position zero h = absurd (omega (arith, zero_has_no_digit position))
digit_is_tested zero (suc mask) h = omega (arith, mask_halves (2 ^ 0) mask)
digit_is_tested (suc position) (suc mask) h =
    let halves : 2 ^ suc position / 2 ≡ 2 ^ position = omega (arith, pow-suc 2 position) in
    let above = digit_is_tested position (suc mask / 2) h in
    let tested = ap (λ (t : ℕ). bit_and (suc mask / 2) t) halves in
    omega (arith, mask_halves (2 ^ suc position) mask, tested, above)
