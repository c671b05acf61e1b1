-- ===== src/Float.antt =====
-- The double that `struct` packs for an int, where one too large is a struct.error. A
-- float is its IEEE 754 pattern.
use grapec.Base.{
  ℕ, zero, suc, ◌+◌, ◌-◌, ◌*◌, ◌/◌, ◌%◌, ◌^◌, true, false, ◌&&◌, ◌||◌, ltb, leb, ◌==◌,
  if◌then◌else◌,
}
use grapec.Base.Int.{ℤ, pos, negsuc}
use grapec.Errors.{Result, ok, err, struct_error}

-- How many binary digits a number has; the number is fuel enough.
unfoldable pub bit_length : ℕ → ℕ → ℕ
bit_length zero n = 0
bit_length (suc fuel) n = elim (n == 0) [ true ↦ 0 | false ↦ suc (bit_length fuel (n / 2)) ]

-- The quotient by 2 ^ shift, rounded to the nearest, a half to the even one.
pub round_shift : ℕ → ℕ → ℕ
round_shift n shift =
    let q = n / 2 ^ shift in
    let r = n % 2 ^ shift in
    if ltb (2 ^ shift) (2 * r) || (2 * r == 2 ^ shift && q % 2 == 1) then q + 1 else q

-- The significand of 53 digits; rounding up to 2 ^ 53 carries into the exponent.
unfoldable pub double_of_ℕ : ℕ → Result ℕ
unfolding bit_length round_shift
double_of_ℕ n =
    let bits = bit_length n n in
    let significand = if leb bits 53 then n * 2 ^ (53 - bits) else round_shift n (bits - 53) in
    let pattern = (bits + 1022) * 2 ^ 52 + (significand - 2 ^ 52) in
    if n == 0 then ok 0 else if leb (2047 * 2 ^ 52) pattern then err struct_error else ok pattern

unfoldable pub double_of : ℤ → Result ℕ
unfolding double_of_ℕ
double_of (pos n) = double_of_ℕ n
double_of (negsuc n) = elim (double_of_ℕ (n + 1)) [
  | ok pattern ↦ ok (2 ^ 63 + pattern)
  | err e ↦ err e
]
