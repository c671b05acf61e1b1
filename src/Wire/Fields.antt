-- ===== src/Wire/Fields.antt =====
-- Tags, length-delimited data and doubles of wire.py: round trips, and what `skip_field` skips.
use grapec.Base.{
  refl, ℕ, zero, suc, ◌+◌, ◌*◌, ◌/◌, ◌^◌, ◌<◌, arith, ◌≡◌, ap, ◌∙◌, ◌++◌, append_assoc, length,
  length-append, take-append_self, drop-append_self,
}
use grapec.Base.Int.{ℤ, pos}
use grapec.Base.Bits.{bit_and_0x07, bit_or_0x07}
use grapec.Errors.{ok}
use grapec.Wire.{
  Bytes, encode_varint, decode_varint, encode_tag, decode_tag, encode_bytes, decode_bytes, le_bytes,
  le_value, encode_double, decode_double, skip_field, varint, fixed64, length_delimited, fixed32,
}
use native.Mathlib.Nat.{pow-suc}
use grapec.Wire.Varint.{decode_varint-encode_varint, and_mask64-small}

pub decode_varint-encode_nat :
    (n : ℕ) (rest : Bytes)
    → n < 2 ^ 64
    → decode_varint (encode_varint (pos n) ++ rest) ≡ ok (n, rest)
decode_varint-encode_nat n rest h =
    decode_varint-encode_varint (pos n) rest ∙ ap (λ t. ok (t, rest)) (and_mask64-small n h)

-- A field number from 1 to 2 ^ 61 - 1 and a wire type below 8 are read back from their tag, with
-- what follows left over.
pub decode_tag-encode_tag :
    (number wire_type : ℕ) (rest : Bytes)
    → 0 < number
    → number < 2 ^ 61
    → wire_type < 8
    → decode_tag (encode_tag number wire_type ++ rest) ≡ ok (number, wire_type, rest)
unfolding encode_tag decode_tag
decode_tag-encode_tag number wire_type rest h0 h1 h2 =
    rw
      (
        bit_or_0x07 number wire_type h2,
        decode_varint-encode_nat (number * 8 + wire_type) rest (omega arith),
      )
      (ground (arith, bit_and_0x07 (number * 8 + wire_type)))

-- Data of fewer than 2 ^ 64 bytes is read back behind its length, with what follows left over.
pub decode_bytes-encode_bytes :
    (value rest : Bytes)
    → length value < 2 ^ 64
    → decode_bytes (encode_bytes value ++ rest) ≡ ok (value, rest)
unfolding encode_bytes decode_bytes
decode_bytes-encode_bytes value rest h =
    rw
      (
        append_assoc (encode_varint (pos (length value))) value rest,
        decode_varint-encode_nat (length value) (value ++ rest) h,
        take-append_self value rest,
        drop-append_self value rest,
      )
      (ground (arith, length-append value rest))

le_value-le_bytes : (k n : ℕ) → n < 256 ^ k → le_value (le_bytes k n) ≡ n
unfolding le_value le_bytes
le_value-le_bytes zero n h = omega arith
le_value-le_bytes (suc k) n h =
    omega (arith, le_value-le_bytes k (n / 256) (omega (arith, pow-suc 256 k)))

-- Every 64-bit pattern of a float is read back bit by bit, with what follows left over.
pub decode_double-encode_double :
    (bits : ℕ) (rest : Bytes)
    → bits < 2 ^ 64
    → decode_double (encode_double bits ++ rest) ≡ ok (bits, rest)
unfolding encode_double decode_double
decode_double-encode_double bits rest h =
    let value : le_value (le_bytes 8 bits) ≡ bits = le_value-le_bytes 8 bits h in
    ground (arith, value)

-- `skip_field` takes exactly one value of each wire type off the buffer.
pub skip_field-varint :
    (z : ℤ) (rest : Bytes) → skip_field (encode_varint z ++ rest) varint ≡ ok rest
unfolding skip_field
skip_field-varint z rest = rw (decode_varint-encode_varint z rest)

-- `skip_field` takes exactly the data of fewer than 2 ^ 64 bytes that encode_bytes wrote.
pub skip_field-bytes :
    (value rest : Bytes)
    → length value < 2 ^ 64
    → skip_field (encode_bytes value ++ rest) length_delimited ≡ ok rest
unfolding skip_field
skip_field-bytes value rest h = rw (decode_bytes-encode_bytes value rest h)

pub skip_field-fixed :
    (value rest : Bytes)
    → ((length value ≡ 8) → skip_field (value ++ rest) fixed64 ≡ ok rest)
      × ((length value ≡ 4) → skip_field (value ++ rest) fixed32 ≡ ok rest)
unfolding skip_field
skip_field-fixed value rest = (
  λ h. rw (← h) (ground (arith, length-append value rest, drop-append_self value rest)),
  λ h. rw (← h) (ground (arith, length-append value rest, drop-append_self value rest)),
)

-- Where a reader succeeds, `skip_field` under its wire type leaves the same rest.
pub skip_field-read_varint :
    (buf : Bytes) (v : ℕ) (rest : Bytes)
    → decode_varint buf ≡ ok (v, rest)
    → skip_field buf varint ≡ ok rest
unfolding skip_field
skip_field-read_varint buf v rest e = rw e refl

pub skip_field-read_bytes :
    (buf value rest : Bytes)
    → decode_bytes buf ≡ ok (value, rest)
    → skip_field buf length_delimited ≡ ok rest
unfolding skip_field
skip_field-read_bytes buf value rest e = rw e refl

pub skip_field-read_double :
    (buf : Bytes) (bits : ℕ) (rest : Bytes)
    → decode_double buf ≡ ok (bits, rest)
    → skip_field buf fixed64 ≡ ok rest
unfolding skip_field decode_double
skip_field-read_double buf bits rest e = ground arith
