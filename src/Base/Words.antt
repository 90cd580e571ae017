-- ===== src/Base/Words.antt =====
-- `^` on bytes: the digits of `bit_xor`, that it undoes itself, and its bound.
use Prim.Native.Nat.{
  ℕ, zero, suc, ◌+◌, ◌*◌, ◌/◌, ◌%◌, ◌^◌, ◌≤◌, ◌<◌, bit_xor, digits, differ, bit_xor-bitwise,
}
use mathlib.Core.Bool.{Bool, true, ◌&&◌}
use mathlib.Core.Path.{◌≡◌, refl, sym, ◌∙◌}
use native.Mathlib.Omega.{arith}
pub use Prim.Native.Nat.{bit_xor}

abbrev xor_digits : ℕ → ℕ → ℕ → ℕ
xor_digits n a b = digits (λ b. b) differ n a b

no_digits : (k y : ℕ) → xor_digits k 0 y ≡ y
no_digits zero y = refl
no_digits (suc k) y = refl

-- Any number of rounds from the number itself on gives the same digits.
same_digits : (x y k l : ℕ) → x ≤ k → x ≤ l → xor_digits k x y ≡ xor_digits l x y
same_digits zero y k l h i = no_digits k y ∙ sym (no_digits l y)
same_digits (suc x) y zero l h i = absurd (omega (arith, h))
same_digits (suc x) y (suc k) zero h i = absurd (omega (arith, i))
same_digits (suc x) y (suc k) (suc l) h i =
    omega (arith, same_digits (suc x / 2) (y / 2) k l (omega (arith, h)) (omega (arith, i)))

zero-bit_xor : (b : ℕ) → bit_xor 0 b ≡ b
zero-bit_xor b = bit_xor-bitwise 0 b

differ_digits : (x y : ℕ) → x < 2 → y < 2 → differ x y ≡ (x + y) % 2
differ_digits zero y p q = omega arith
differ_digits (suc zero) zero p q = omega arith
differ_digits (suc zero) (suc zero) p q = omega arith
differ_digits (suc zero) (suc (suc y)) p q = absurd (omega arith)
differ_digits (suc (suc x)) y p q = absurd (omega arith)

-- The law for the lowest digit.
bit_xor_step : (a b : ℕ) → bit_xor a b ≡ bit_xor (a / 2) (b / 2) * 2 + (a + b) % 2
bit_xor_step zero b = omega (arith, zero-bit_xor b, zero-bit_xor (b / 2))
bit_xor_step (suc a) b = omega (
  arith,
  bit_xor-bitwise (suc a) b,
  bit_xor-bitwise (suc a / 2) (b / 2),
  same_digits (suc a / 2) (b / 2) a (suc a / 2) (omega arith) (omega arith),
  differ_digits (suc a % 2) (b % 2) (omega arith) (omega arith),
)

bit_xor_half : (a b : ℕ) → bit_xor a b / 2 ≡ bit_xor (a / 2) (b / 2)
bit_xor_half a b = omega (arith, bit_xor_step a b)

bit_xor_twice_fuel : (n a b : ℕ) → a ≤ n → b ≤ n → bit_xor (bit_xor a b) b ≡ a
bit_xor_twice_fuel zero zero zero p q = refl
bit_xor_twice_fuel zero zero (suc b) p q = absurd (omega arith)
bit_xor_twice_fuel zero (suc a) b p q = absurd (omega arith)
bit_xor_twice_fuel (suc n) a b p q = omega (
  arith,
  bit_xor_step a b,
  rw (bit_xor_half a b) at (bit_xor_step (bit_xor a b) b),
  bit_xor_twice_fuel n (a / 2) (b / 2) (omega arith) (omega arith),
)

pub bit_xor_twice : (a b : ℕ) → bit_xor (bit_xor a b) b ≡ a
bit_xor_twice a b = bit_xor_twice_fuel (a + b) a b (omega arith) (omega arith)

-- A byte and a byte make a byte; `n` counts the binary digits.
bit_xor-lt_power : (n a b : ℕ) → a < 2 ^ n → b < 2 ^ n → bit_xor a b < 2 ^ n
bit_xor-lt_power zero zero b p q = omega (arith, zero-bit_xor b)
bit_xor-lt_power zero (suc a) b p q = absurd (omega arith)
bit_xor-lt_power (suc n) a b p q =
    omega (arith, bit_xor_step a b, bit_xor-lt_power n (a / 2) (b / 2) (omega arith) (omega arith))

pub bit_xor-lt_byte : (a b : ℕ) → a < 256 → b < 256 → bit_xor a b < 256
bit_xor-lt_byte a b p q = bit_xor-lt_power 8 a b p q

-- A test of every number below a bound.
unfoldable pub each_below : (ℕ → Bool) → ℕ → Bool
each_below test zero = true
each_below test (suc last) = each_below test last && test last

pub each_below_lem :
    (test : ℕ → Bool) (bound k : ℕ) → k < bound → each_below test bound ≡ true → test k ≡ true
unfolding each_below
each_below_lem test zero k lt all = absurd (omega (arith, lt))
each_below_lem test (suc last) k lt all = ground (arith, lt, all, each_below_lem test last k)
