-- ===== src/Wire.antt =====
-- src/grapec/wire.py, the primitives of the protobuf wire format.
-- A buffer read from `pos` on is the list of the bytes that are left, `buf[pos:]`, and the
-- new position that a function returns is what it leaves of that list.
pub mod Varint
pub mod Fields
pub mod Progress
pub mod Skipping
pub mod Faults
mod Examples
use grapec.Base.{
  ℕ, zero, suc, ◌+◌, ◌-◌, ◌*◌, ◌/◌, ◌%◌, ◌^◌, ◌<◌, ◌≤◌, bit_and, bit_or, arith, ◌≡◌, List, [], ◌∷◌,
  ◌++◌, ltb, leb, ◌==◌, if◌then◌else◌, length, take, drop,
}
use grapec.Base.Int.{ℤ, pos, negsuc, sub_ℕ}
use grapec.Base.Order.{lt_wf}
use grapec.Errors.{
  Result, ok, err, ◌>>=◌, wire_error, truncated_varint, varint_too_long, field_number_zero,
  truncated_fixed64, truncated_bytes, unsupported_wire_type, truncated_field,
}
use mathlib.Core.Logic.{dite}
use mathlib.Core.WellFounded.{Acc}
use native.Mathlib.Decide.{dec_lt}

abbrev pub Bytes : Type 0
Bytes = List ℕ

abbrev pub IsByte : ℕ → Type 0
IsByte b = b < 256

-- What a reader returns: a value and the rest of the buffer.
abbrev pub Read {ℓ} : Type ℓ → Type ℓ
Read A = Result (A × Bytes)

abbrev pub varint : ℕ
varint = 0

abbrev pub fixed64 : ℕ
fixed64 = 1

abbrev pub length_delimited : ℕ
length_delimited = 2

abbrev pub fixed32 : ℕ
fixed32 = 5

abbrev pub mask64 : ℕ
mask64 = 2 ^ 64 - 1

-- `value & _MASK64`: a negative number counts as its two's complement.
unfoldable pub and_mask64 : ℤ → ℕ
and_mask64 (pos n) = bit_and n mask64
and_mask64 (negsuc n) = mask64 - bit_and n mask64

pub shift_shrinks : (v : ℕ) → 0 < v / 2 ^ 7 → v / 2 ^ 7 < v
shift_shrinks v h = omega arith

-- The loop of `encode_varint`, with the bytes that it appends.
encode_loop : (value : ℕ) → Acc ◌<◌ value → Bytes
encode_loop value (Acc.intro _ smaller) =
    let byte = bit_and value 0x7f in
    dite (dec_lt 0 (value / 2 ^ 7))
      (λ more.
        bit_or byte 0x80 ∷ encode_loop (value / 2 ^ 7) (smaller _ (shift_shrinks value more)))
      (λ _. byte ∷ [])

unfoldable pub encode_varint : ℤ → Bytes
unfolding encode_loop lt_wf dec_lt
encode_varint value = encode_loop (and_mask64 value) (lt_wf.apply (and_mask64 value))

decode_loop : Bytes → ℕ → ℕ → Read ℕ
decode_loop [] result shift = err (wire_error truncated_varint)
decode_loop (byte ∷ rest) result shift =
    let result' = bit_or result (bit_and byte 0x7f * 2 ^ shift) in
    let more = decode_loop rest result' (shift + 7) in
    if bit_and byte 0x80 == 0
    then ok (bit_and result' mask64, rest)
    else if ltb 63 (shift + 7)
    then err (wire_error varint_too_long)
    else more

unfoldable pub decode_varint : Bytes → Read ℕ
unfolding decode_loop
decode_varint buf = decode_loop buf 0 0

unfoldable pub to_signed64 : ℕ → ℤ
to_signed64 value = if leb (2 ^ 63) value then sub_ℕ value (2 ^ 64) else pos value

unfoldable pub encode_tag : ℕ → ℕ → Bytes
encode_tag number wire_type = encode_varint (pos (bit_or (number * 2 ^ 3) wire_type))

-- The field number, the wire type and the rest.
unfoldable pub decode_tag : Bytes → Result (ℕ × ℕ × Bytes)
decode_tag buf = do
  (key, rest) ← decode_varint buf
  if key / 2 ^ 3 == 0
      then err (wire_error field_number_zero)
      else ok (key / 2 ^ 3, bit_and key 0x7, rest)

-- A float is its IEEE 754 pattern, a number below 2 ^ 64; `struct` packs it lowest byte first.
pub le_bytes : ℕ → ℕ → Bytes
le_bytes zero n = []
le_bytes (suc k) n = n % 256 ∷ le_bytes k (n / 256)

pub le_value : Bytes → ℕ
le_value [] = 0
le_value (b ∷ bs) = b + 256 * le_value bs

pub encode_double : ℕ → Bytes
unfolding le_bytes
encode_double bits = le_bytes 8 bits

pub decode_double : Bytes → Read ℕ
unfolding le_value
decode_double buf =
    if ltb (length buf) 8
    then err (wire_error truncated_fixed64)
    else ok (le_value (take 8 buf), drop 8 buf)

unfoldable pub encode_bytes : Bytes → Bytes
encode_bytes value = encode_varint (pos (length value)) ++ value

unfoldable pub decode_bytes : Bytes → Read Bytes
decode_bytes buf = do
  (size, rest) ← decode_varint buf
  if ltb (length rest) size
      then err (wire_error truncated_bytes)
      else ok (take size rest, drop size rest)

-- `pos += size` and the check behind it that `pos` did not pass the end.
pub advance : ℕ → Bytes → Result Bytes
advance size buf =
    if ltb (length buf) size then err (wire_error truncated_field) else ok (drop size buf)

pub skip_field : Bytes → ℕ → Result Bytes
unfolding advance
skip_field buf wire_type =
    if wire_type == varint
    then (do (_, rest) ← decode_varint buf; ok rest)
    else if wire_type == fixed64
    then advance 8 buf
    else if wire_type == length_delimited
    then (do (_, rest) ← decode_bytes buf; ok rest)
    else if wire_type == fixed32
    then advance 4 buf
    else err (wire_error unsupported_wire_type)
