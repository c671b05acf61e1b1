-- ===== src/Protobuf/Scalars.antt =====
-- The values of protobuf.py that hold no other values: `_check`, `_check_int`, the scalar cases of
-- `_encode_single` and `_encode_packed_item`, and when a field is left out.
use grapec.Base.{ℕ, ◌-◌, ◌%◌, ◌^◌, Bool, true, false, ◌&&◌, not, [], ◌++◌, ◌==◌, if◌then◌else◌}
use grapec.Base.Int.{ℤ, pos, negsuc, eqb_ℤ, leb_ℤ, ltb_ℤ}
use grapec.Errors.{Result, ok, err, ◌>>=◌, encode_error, assertion_error}
use grapec.Float.{double_of}
use grapec.Protobuf.Moments.{encode_timestamp, encode_duration}
use grapec.Schema.{
  Kind, TypeSpec, scalar, struct, timestamp, duration, Value, null, list, dict, datetime, timedelta,
  nil, empty,
}
use grapec.Text.{encode}
use grapec.Wire.{
  Bytes, encode_varint, encode_tag, encode_bytes, encode_double, varint, fixed64, length_delimited,
}

-- `_is_packed`
unfoldable pub is_packed : TypeSpec → Bool
is_packed (TypeSpec.enum c) = true
is_packed (scalar Kind.int w) = true
is_packed (scalar Kind.float w) = true
is_packed (scalar Kind.bool w) = true
is_packed _ = false

abbrev pub fits_64 : ℤ → Result ℤ
fits_64 z =
    if leb_ℤ (negsuc (2 ^ 63 - 1)) z && ltb_ℤ z (pos (2 ^ 63)) then ok z else err encode_error

-- A member of an IntEnum is an int.
unfoldable pub check_int : Value → Result ℤ
check_int (Value.int z) = fits_64 z
check_int (Value.enum c z) = fits_64 z
check_int _ = err encode_error

unfoldable pub check_bool : Value → Result ℤ
check_bool (Value.bool true) = ok (pos 1)
check_bool (Value.bool false) = ok (pos 0)
check_bool _ = err encode_error

-- `_check(value, (int, float), where)`, and the pattern that `struct` packs.
unfoldable pub check_float : Value → Result ℕ
check_float (Value.float bits) = ok bits
check_float (Value.int z) = double_of z
check_float (Value.enum c z) = double_of z
check_float (Value.bool true) = double_of (pos 1)
check_float (Value.bool false) = double_of (pos 0)
check_float _ = err encode_error

unfoldable pub packed_item : TypeSpec → Value → Result Bytes
unfolding check_int check_bool check_float
packed_item (scalar Kind.float w) v = (check_float v >>= λ bits. ok (encode_double bits))
packed_item (scalar Kind.bool w) v = (check_bool v >>= λ z. ok (encode_varint z))
packed_item (scalar Kind.int w) v = (check_int v >>= λ z. ok (encode_varint z))
packed_item (TypeSpec.enum c) v = (check_int v >>= λ z. ok (encode_varint z))
packed_item _ v = err assertion_error

-- A field of length-delimited data.
abbrev pub framed : ℕ → Bytes → Bytes
framed number body = encode_tag number length_delimited ++ encode_bytes body

abbrev pub check_text : Value → Result Bytes
check_text (Value.str s) = encode s
check_text _ = err encode_error

abbrev pub check_bytes : Value → Result Bytes
check_bytes (Value.bytes b) = ok b
check_bytes _ = err encode_error

abbrev pub check_datetime : Value → Result Bytes
check_datetime (datetime us) = ok (encode_timestamp us)
check_datetime _ = err encode_error

abbrev pub check_timedelta : Value → Result Bytes
check_timedelta (timedelta us) = ok (encode_duration us)
check_timedelta _ = err encode_error

-- `_encode_single` on a value that is no struct instance.
unfoldable pub encode_leaf : ℕ → TypeSpec → Value → Result Bytes
unfolding check_int check_bool check_float
encode_leaf n (scalar Kind.int w) v =
    (check_int v >>= λ z. ok (encode_tag n varint ++ encode_varint z))
encode_leaf n (TypeSpec.enum c) v =
    (check_int v >>= λ z. ok (encode_tag n varint ++ encode_varint z))
encode_leaf n (scalar Kind.bool w) v =
    (check_bool v >>= λ z. ok (encode_tag n varint ++ encode_varint z))
encode_leaf n (scalar Kind.float w) v =
    (check_float v >>= λ bits. ok (encode_tag n fixed64 ++ encode_double bits))
encode_leaf n (scalar Kind.str w) v = (check_text v >>= λ raw. ok (framed n raw))
encode_leaf n (scalar Kind.bytes w) v = (check_bytes v >>= λ raw. ok (framed n raw))
encode_leaf n (struct c) v = err encode_error
encode_leaf n timestamp v = (check_datetime v >>= λ raw. ok (framed n raw))
encode_leaf n duration v = (check_timedelta v >>= λ raw. ok (framed n raw))
encode_leaf n _ v = err assertion_error

-- `value == 0`: an int, a float with either sign, False, and an enum member.
pub is_number_zero : Value → Bool
is_number_zero (Value.int z) = eqb_ℤ z (pos 0)
is_number_zero (Value.enum c z) = eqb_ℤ z (pos 0)
is_number_zero (Value.float bits) = bits % 2 ^ 63 == 0
is_number_zero (Value.bool b) = not b
is_number_zero _ = false

-- `value == zero_value(spec)` for a scalar.
unfoldable pub is_zero : Kind → Value → Bool
unfolding is_number_zero
is_zero Kind.str (Value.str []) = true
is_zero Kind.bytes (Value.bytes []) = true
is_zero Kind.int v = is_number_zero v
is_zero Kind.float v = is_number_zero v
is_zero Kind.bool v = is_number_zero v
is_zero _ _ = false

-- `bool(value)`
unfoldable pub truthy : Value → Bool
truthy null = false
truthy (Value.int z) = not (eqb_ℤ z (pos 0))
truthy (Value.enum c z) = not (eqb_ℤ z (pos 0))
truthy (Value.float bits) = not (bits % 2 ^ 63 == 0)
truthy (Value.bool b) = b
truthy (Value.str []) = false
truthy (Value.bytes []) = false
truthy (timedelta us) = not (eqb_ℤ us (pos 0))
truthy (list nil) = false
truthy (dict empty) = false
truthy _ = true
