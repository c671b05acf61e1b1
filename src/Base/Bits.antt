-- ===== src/Base/Bits.antt =====
-- The bit operations at variables, in the arithmetic that `omega` reads.
use Prim.Native.Nat.{
  ℕ, zero, suc, ◌+◌, ◌-◌, ◌*◌, ◌/◌, ◌%◌, ◌^◌, ◌≤◌, ◌<◌, min, max, bit_and, bit_or, digits,
  bit_and-bitwise, bit_or-bitwise,
}
use mathlib.Core.Path.{◌≡◌, refl, ap, ◌∙◌}
use native.Mathlib.Nat.{
  pow-suc, add-mul-mod_self_right, mod-eq_of_lt, mod-lt, div-add-mod, one-le-pow,
  div-div-eq-div-mul, mul_comm, div-one,
}
use mathlib.Core.Bool.{Bool, true, false}
use mathlib.Core.Logic.{ite}
use native.Mathlib.Decide.{ℕ_discrete}
use native.Mathlib.Omega.{arith}

-- The digit recursion does not depend on its fuel, once that reaches the first number.
module _ (pad : ℕ → ℕ) (join : ℕ → ℕ → ℕ) where
  digits-fuel : (i j x y : ℕ) → x ≤ i → x ≤ j → digits pad join i x y ≡ digits pad join j x y
  digits-fuel zero zero zero y p q = refl
  digits-fuel zero (suc j) zero y p q = refl
  digits-fuel (suc i) zero zero y p q = refl
  digits-fuel (suc i) (suc j) zero y p q = refl
  digits-fuel zero j (suc x) y p q = absurd (omega arith)
  digits-fuel (suc i) zero (suc x) y p q = absurd (omega arith)
  digits-fuel (suc i) (suc j) (suc x) y p q =
      ap (λ t. t * 2 + join (suc x % 2) (y % 2))
        (digits-fuel i j (suc x / 2) (y / 2) (omega arith) (omega arith))

zero-bit_and : (y : ℕ) → bit_and 0 y ≡ 0
zero-bit_and y = bit_and-bitwise 0 y

pub zero-bit_or : (y : ℕ) → bit_or 0 y ≡ y
zero-bit_or y = bit_or-bitwise 0 y

-- The lowest bit and the rest.
pub bit_and_step : (x y : ℕ) → bit_and x y ≡ bit_and (x / 2) (y / 2) * 2 + min (x % 2) (y % 2)
bit_and_step zero y = omega (arith, zero-bit_and y, zero-bit_and (y / 2))
bit_and_step (suc x) y = omega (
  arith,
  bit_and-bitwise (suc x) y,
  bit_and-bitwise (suc x / 2) (y / 2),
  digits-fuel (λ k. zero) min x (suc x / 2) (suc x / 2) (y / 2) (omega arith) (omega arith),
)

pub bit_or_step : (x y : ℕ) → bit_or x y ≡ bit_or (x / 2) (y / 2) * 2 + max (x % 2) (y % 2)
bit_or_step zero y = omega (arith, zero-bit_or y, zero-bit_or (y / 2))
bit_or_step (suc x) y = omega (
  arith,
  bit_or-bitwise (suc x) y,
  bit_or-bitwise (suc x / 2) (y / 2),
  digits-fuel (λ k. k) max x (suc x / 2) (suc x / 2) (y / 2) (omega arith) (omega arith),
)

pub bit_and-zero : (n a : ℕ) → a ≤ n → bit_and a 0 ≡ 0
bit_and-zero n zero h = refl
bit_and-zero zero (suc a) h = absurd (omega arith)
bit_and-zero (suc n) (suc a) h =
    omega (arith, bit_and_step (suc a) 0, bit_and-zero n (suc a / 2) (omega arith))

bit_or_zero : (n a : ℕ) → a ≤ n → bit_or a 0 ≡ a
bit_or_zero n zero h = refl
bit_or_zero zero (suc a) h = absurd (omega arith)
bit_or_zero (suc n) (suc a) h =
    omega (arith, bit_or_step (suc a) 0, bit_or_zero n (suc a / 2) (omega arith))

-- The lowest bit of a remainder by an even number, and the rest.
mod_double : (a m : ℕ) → 0 < m → a % (m * 2) ≡ a / 2 % m * 2 + a % 2
mod_double a m h =
    ap (λ t. t % (m * 2)) split
    ∙ add-mul-mod_self_right (a / 2 % m * 2 + a % 2) (a / 2 / m) (m * 2)
    ∙ mod-eq_of_lt (omega (arith, mod-lt (a / 2) h))
  where
    split : a ≡ (a / 2 % m * 2 + a % 2) + a / 2 / m * (m * 2)
    split = omega (arith, div-add-mod (a / 2) m)

pub pow_pos_of : (b k : ℕ) → 0 < b → 0 < b ^ k
pow_pos_of b k h = one-le-pow k b h

-- The digits of a remainder by a product.
pub mod_mul : (a m d : ℕ) → 0 < m → 0 < d → a % (m * d) ≡ a / m % d * m + a % m
mod_mul a m d hm hd =
    ap (λ t. t % (m * d)) split
    ∙ add-mul-mod_self_right (a / m % d * m + a % m) (a / m / d) (m * d)
    ∙ mod-eq_of_lt below
  where
    split : a ≡ (a / m % d * m + a % m) + a / m / d * (m * d)
    split = omega (arith, div-add-mod a m, ap (λ (t : ℕ). m * t) (div-add-mod (a / m) d))

    below : a / m % d * m + a % m < m * d
    below = grind (arith, mod-lt (a / m) hd, mod-lt a hm)

pow_pos : (k : ℕ) → 0 < 2 ^ k
pow_pos k = one-le-pow k 2 (omega arith)

-- A mask of k ones keeps the k lowest bits.
pub bit_and_mask : (k a : ℕ) → bit_and a (2 ^ k - 1) ≡ a % 2 ^ k
bit_and_mask zero a = omega (arith, bit_and-zero a a (omega arith))
bit_and_mask (suc k) a =
    rw (pow-suc, mod_double a (2 ^ k) (pow_pos k), bit_and_step a (2 ^ k * 2 - 1), half)
      (omega (arith, bit_and_mask k (a / 2), pow_pos k))
  where
    half : (2 ^ k * 2 - 1) / 2 ≡ 2 ^ k - 1
    half = omega (arith, pow_pos k)

-- Bits that do not overlap add up.
pub bit_or_disjoint : (s r x : ℕ) → r < 2 ^ s → bit_or r (x * 2 ^ s) ≡ r + x * 2 ^ s
bit_or_disjoint zero zero x h = omega (arith, zero-bit_or (x * 1))
bit_or_disjoint zero (suc r) x h = absurd (omega arith)
bit_or_disjoint (suc s) r x h =
    rw (pow-suc, bit_or_step r (x * (2 ^ s * 2)), half)
      (omega (arith, bit_or_disjoint s (r / 2) x low))
  where
    half : x * (2 ^ s * 2) / 2 ≡ x * 2 ^ s
    half = omega arith

    low : r / 2 < 2 ^ s
    low = omega (arith, pow-suc 2 s)

-- The masks and shifts of the wire formats.
pub bit_and_0x7f : (a : ℕ) → bit_and a 0x7f ≡ a % 128
bit_and_0x7f = bit_and_mask 7

pub bit_and_0xff : (a : ℕ) → bit_and a 0xff ≡ a % 256
bit_and_0xff = bit_and_mask 8

pub bit_and_0x07 : (a : ℕ) → bit_and a 0x7 ≡ a % 8
bit_and_0x07 = bit_and_mask 3

-- A statement about the numbers below a bound is checked by evaluation.
module _ (f g : ℕ → ℕ) where
  agree_below : ℕ → Bool
  unfolding ℕ_discrete
  agree_below zero = true
  agree_below (suc n) = ite (ℕ_discrete (f n) (g n)) (agree_below n) false

  agree_below→eq : (n : ℕ) → agree_below n ≡ true → (i : ℕ) → i < n → f i ≡ g i
  unfolding agree_below
  agree_below→eq zero e i h = absurd (omega arith)
  agree_below→eq (suc n) e i h = ground (arith, agree_below→eq n (ground arith) i)

pub bit_and_0x80 : (b : ℕ) → b < 256 → bit_and b 0x80 ≡ b / 128 * 128
unfolding agree_below
bit_and_0x80 = agree_below→eq _ _ 256 refl

pub bit_or_0x80 : (b : ℕ) → b < 128 → bit_or b 0x80 ≡ b + 128
bit_or_0x80 b h = bit_or_disjoint 7 b 1 h

pub bit_or_above : (s x r : ℕ) → r < 2 ^ s → bit_or (x * 2 ^ s) r ≡ x * 2 ^ s + r
bit_or_above zero x zero h = omega (arith, bit_or_zero (x * 1) (x * 1) (omega arith))
bit_or_above zero x (suc r) h = absurd (omega arith)
bit_or_above (suc s) x r h =
    rw (pow-suc, bit_or_step (x * (2 ^ s * 2)) r, half)
      (omega (arith, bit_or_above s x (r / 2) low))
  where
    half : x * (2 ^ s * 2) / 2 ≡ x * 2 ^ s
    half = omega arith

    low : r / 2 < 2 ^ s
    low = omega (arith, pow-suc 2 s)

-- `(number << 3) | wire_type`.
pub bit_or_0x07 : (a b : ℕ) → b < 8 → bit_or (a * 2 ^ 3) b ≡ a * 8 + b
bit_or_0x07 a b h = bit_or_above 3 a b h

-- A mask whose `s` lowest bits are 0.
pub bit_and_above : (s a x : ℕ) → bit_and a (x * 2 ^ s) ≡ bit_and (a / 2 ^ s) x * 2 ^ s
bit_and_above zero a x = rw (one x, div-one a) (omega arith)
  where
    one : (x : ℕ) → x * 2 ^ 0 ≡ x
    one x = omega arith
bit_and_above (suc s) a x =
    rw (pow-suc, bit_and_step a (x * (2 ^ s * 2)), half, even, ← quotient)
      (omega (arith, bit_and_above s (a / 2) x))
  where
    half : x * (2 ^ s * 2) / 2 ≡ x * 2 ^ s
    half = omega arith

    even : x * (2 ^ s * 2) % 2 ≡ 0
    even = omega arith

    quotient : a / 2 / 2 ^ s ≡ a / (2 ^ s * 2)
    quotient = div-div-eq-div-mul a 2 (2 ^ s) ∙ ap (λ t. a / t) (mul_comm 2 (2 ^ s))
