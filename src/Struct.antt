-- ===== src/Struct.antt =====
-- The big-endian formats of Python's `struct` that thrift.py packs and unpacks with: ">b", ">h",
-- ">i" and ">q" of 1, 2, 4 and 8 bytes, and the unsigned ">I".
pub mod RoundTrip
use grapec.Base.{
  ℕ, zero, suc, ◌+◌, ◌-◌, ◌*◌, ◌/◌, ◌%◌, ◌^◌, Bool, ◌&&◌, List, [], ◌∷◌, ltb, leb, if◌then◌else◌,
}
use grapec.Base.Int.{ℤ, pos, negsuc, leb_ℤ, ltb_ℤ}
use grapec.Errors.{Result, ok, err, struct_error}

-- The `k` lowest bytes of a number, highest first.
unfoldable pub be_bytes : ℕ → ℕ → List ℕ
be_bytes zero n = []
be_bytes (suc k) n = n / 256 ^ k % 256 ∷ be_bytes k n

unfoldable pub be_value : ℕ → List ℕ → ℕ
be_value acc [] = acc
be_value acc (b ∷ bs) = be_value (acc * 256 + b) bs

-- The range of a signed number of `bits + 1` bits.
abbrev pub in_range : ℕ → ℤ → Bool
in_range bits z = leb_ℤ (negsuc (2 ^ bits - 1)) z && ltb_ℤ z (pos (2 ^ bits))

abbrev pub twos_complement : ℕ → ℤ → ℕ
twos_complement modulus (pos n) = n
twos_complement modulus (negsuc n) = modulus - 1 - n

abbrev pub signed : ℕ → ℕ → ℤ
signed modulus n = if ltb (n + n) modulus then pos n else negsuc (modulus - 1 - n)

unfoldable pub pack_signed : ℕ → ℤ → Result (List ℕ)
unfolding be_bytes
pack_signed size z =
    if in_range (8 * size - 1) z
    then ok (be_bytes size (twos_complement (256 ^ size) z))
    else err struct_error

unfoldable pub unpack_signed : ℕ → List ℕ → ℤ
unfolding be_value
unpack_signed size bytes = signed (256 ^ size) (be_value 0 bytes)

unfoldable pub pack_unsigned : ℕ → ℕ → Result (List ℕ)
unfolding be_bytes
pack_unsigned size n = if ltb n (256 ^ size) then ok (be_bytes size n) else err struct_error

unfoldable pub unpack_unsigned : List ℕ → ℕ
unfolding be_value
unpack_unsigned bytes = be_value 0 bytes
