-- ===== src/Struct/RoundTrip.antt =====
-- Packing and unpacking numbers with Python's `struct`.
use grapec.Base.{
  ℕ, zero, suc, ◌+◌, ◌-◌, ◌*◌, ◌/◌, ◌%◌, ◌^◌, ◌<◌, ◌≡◌, refl, ap, ◌∙◌, List, length, arith, true,
}
use grapec.Base.Int.{ℤ, pos, negsuc, ◌≤ℤ◌, ◌<ℤ◌}
use grapec.Base.Bits.{mod_mul, pow_pos_of}
use grapec.Errors.{ok}
use grapec.Struct.{
  be_bytes, be_value, twos_complement, signed, in_range, pack_signed, unpack_signed, pack_unsigned,
  unpack_unsigned,
}
use native.Mathlib.Numerals.{towards_suc}
use native.Mathlib.Nat.{pow-suc, mod-eq_of_lt}

pub length-be_bytes : (k n : ℕ) → length (be_bytes k n) ≡ k
unfolding be_bytes
length-be_bytes zero n = refl
length-be_bytes (suc k) n = ap suc (length-be_bytes k n)

carry : (acc x m r : ℕ) → (acc * 256 + x) * m + r ≡ acc * (m * 256) + (x * m + r)
carry acc x m r = omega arith

be_value-be_bytes : (k n acc : ℕ) → be_value acc (be_bytes k n) ≡ acc * 256 ^ k + n % 256 ^ k
unfolding be_value be_bytes
be_value-be_bytes zero n acc = omega arith
be_value-be_bytes (suc k) n acc =
    be_value-be_bytes k n (acc * 256 + n / 256 ^ k % 256)
    ∙ carry acc (n / 256 ^ k % 256) (256 ^ k) (n % 256 ^ k)
    ∙ rw (pow-suc, mod_mul n (256 ^ k) 256 (pow_pos_of 256 k (omega arith)) (omega arith))

pub be_value_lem : (k n : ℕ) → n < 256 ^ k → be_value 0 (be_bytes k n) ≡ n
be_value_lem k n h = be_value-be_bytes k n 0 ∙ omega (arith, mod-eq_of_lt h)

pub unpack-pack_unsigned :
    (k n : ℕ)
    → n < 256 ^ k
    → (bytes : List ℕ) × (pack_unsigned k n ≡ ok bytes)
      × (length bytes ≡ k)
      × (unpack_unsigned bytes ≡ n)
unfolding pack_unsigned unpack_unsigned
unpack-pack_unsigned k n h = (be_bytes k n, ground arith, length-be_bytes k n, be_value_lem k n h)

abbrev pub InRange : ℕ → ℤ → Type 0
InRange k z = (negsuc (2 ^ (8 * k - 1) - 1) ≤ℤ z) × (z <ℤ pos (2 ^ (8 * k - 1)))

pow_256 : (k : ℕ) → 256 ^ k ≡ 2 ^ (8 * k)
pow_256 zero = refl
pow_256 (suc k) = rw (pow-suc, pow_256 k, eight) (simp towards_suc (omega arith))
  where
    eight : 8 * suc k ≡ 8 * k + 8
    eight = omega arith

half_modulus : (j : ℕ) → 2 * 2 ^ (8 * suc j - 1) ≡ 256 ^ suc j
half_modulus j = rw (pow-suc, pow_256 j, seven) (simp towards_suc (omega arith))
  where
    seven : 8 * suc j - 1 ≡ 8 * j + 7
    seven = omega arith

signed-twos_complement :
    (m : ℕ) (z : ℤ)
    → 0 < m
    → negsuc (m - 1) ≤ℤ z
    → z <ℤ pos m
    → (twos_complement (2 * m) z < 2 * m) × (signed (2 * m) (twos_complement (2 * m) z) ≡ z)
signed-twos_complement m (pos n) hm l h = ground arith
signed-twos_complement m (negsuc n) hm l h = ground arith

in_range_iff :
    (bits : ℕ) (z : ℤ)
    → (negsuc (2 ^ bits - 1) ≤ℤ z)
    → (z <ℤ pos (2 ^ bits))
    → in_range bits z ≡ true
in_range_iff bits z l h = ground arith

-- A signed number of `k` bytes that fits is packed in `k` bytes and unpacks to the same number.
pub unpack-pack_signed :
    (j : ℕ) (z : ℤ)
    → InRange (suc j) z
    → (bytes : List ℕ) × (pack_signed (suc j) z ≡ ok bytes)
      × (length bytes ≡ suc j)
      × (unpack_signed (suc j) bytes ≡ z)
unfolding pack_signed unpack_signed
unpack-pack_signed j z (l, h) =
    let m : ℕ = 2 ^ (8 * suc j - 1) in
    let (below, back) =
      signed-twos_complement m z (pow_pos_of 2 (8 * suc j - 1) (omega arith)) l h in
    (
      be_bytes (suc j) (twos_complement (256 ^ suc j) z),
      rw (in_range_iff (8 * suc j - 1) z l h),
      length-be_bytes (suc j) _,
      ap (signed (256 ^ suc j))
            (be_value_lem (suc j) (twos_complement (256 ^ suc j) z) (rw (← half_modulus j) below))
          ∙ rw (← half_modulus j) back,
    )
