-- ===== src/Thrift.antt =====
-- src/grapec/thrift.py: the readers of the binary protocol and `skip`. A buffer read from `pos`
-- on is the list of the bytes that are left.
pub mod Message
pub mod Protocol
pub mod Connection
pub mod Total
pub mod Encode
pub mod Decode
pub mod Schemas
pub mod Calls
pub mod Codec
mod Examples
use grapec.Base.{
  ℕ, zero, suc, ◌+◌, ◌-◌, ◌*◌, ◌^◌, Bool, ◌&&◌, ◌||◌, List, [], ◌∷◌, Option, none, some, ltb, leb,
  ◌==◌, if◌then◌else◌, length, take, drop,
}
use grapec.Base.Int.{ℤ, pos, negsuc}
use grapec.Errors.{
  Result, ok, err, ◌>>=◌, no_fuel, recursion_error, thrift_error, truncated_input, negative_size,
  unknown_type,
}
use grapec.Struct.{unpack_signed}
use grapec.Wire.{Bytes, Read}

abbrev pub stop_code : ℕ
stop_code = 0

abbrev pub bool_code : ℕ
bool_code = 2

abbrev pub byte_code : ℕ
byte_code = 3

abbrev pub double_code : ℕ
double_code = 4

abbrev pub i16_code : ℕ
i16_code = 6

abbrev pub i32_code : ℕ
i32_code = 8

abbrev pub i64_code : ℕ
i64_code = 10

abbrev pub string_code : ℕ
string_code = 11

abbrev pub struct_code : ℕ
struct_code = 12

abbrev pub map_code : ℕ
map_code = 13

abbrev pub set_code : ℕ
set_code = 14

abbrev pub list_code : ℕ
list_code = 15

-- `_need`, and the slice behind the end that it returns.
pub need : ℕ → Bytes → Result Bytes
need size buf =
    if ltb (length buf) size then err (thrift_error truncated_input) else ok (drop size buf)

-- `_read` of a signed big-endian number.
pub read : ℕ → Bytes → Read ℤ
read size buf = do rest ← need size buf; ok (unpack_signed size (take size buf), rest)

pub read_byte : Bytes → Read ℕ
read_byte [] = err (thrift_error truncated_input)
read_byte (b ∷ rest) = ok (b, rest)

pub check_count : ℤ → Result ℕ
check_count (pos n) = ok n
check_count (negsuc n) = err (thrift_error negative_size)

pub read_binary : Bytes → Read Bytes
read_binary buf = do
  (size, body) ← read 4 buf
  count ← check_count size
  rest ← need count body
  ok (take count body, rest)

-- `_SIZES`
pub size_of : ℕ → Option ℕ
size_of t =
    if t == bool_code || t == byte_code
    then some 1
    else if t == double_code || t == i64_code
    then some 8
    else if t == i16_code
    then some 2
    else if t == i32_code
    then some 4
    else none

-- The loops of `skip` stand in a section for the calls of `skip` inside of them. A round of the
-- loop over fields takes a byte at least.
module _ (nested : Bytes → ℕ → Result Bytes) where
  unfoldable pub skip_fields : ℕ → Bytes → Result Bytes
  unfolding read_byte need
  skip_fields zero buf = err no_fuel
  skip_fields (suc fuel) buf = do
    (inner, buf1) ← read_byte buf
    let more = (do buf2 ← need 2 buf1; buf3 ← nested buf2 inner; skip_fields fuel buf3)
    if inner == stop_code then ok buf1 else more

  unfoldable pub skip_items : ℕ → ℕ → Bytes → Result Bytes
  skip_items zero etype buf = ok buf
  skip_items (suc n) etype buf = do rest ← nested buf etype; skip_items n etype rest

  unfoldable pub skip_entries : ℕ → ℕ → ℕ → Bytes → Result Bytes
  skip_entries zero ktype vtype buf = ok buf
  skip_entries (suc n) ktype vtype buf = do
    rest ← nested buf ktype
    rest' ← nested rest vtype
    skip_entries n ktype vtype rest'

  -- A value whose size its type does not tell.
  unfoldable pub skip_composed : Bytes → ℕ → Result Bytes
  unfolding skip_fields skip_items skip_entries read_byte read read_binary check_count
  skip_composed buf t =
      let items = (do
        (etype, buf1) ← read_byte buf
        (count, buf2) ← read 4 buf1
        n ← check_count count
        skip_items n etype buf2) in
      let entries = (do
        (ktype, buf1) ← read_byte buf
        (vtype, buf2) ← read_byte buf1
        (count, buf3) ← read 4 buf2
        n ← check_count count
        skip_entries n ktype vtype buf3) in
      if t == string_code
      then (read_binary buf >>= λ p. ok p.1)
      else if t == struct_code
      then skip_fields (suc (length buf)) buf
      else if t == list_code || t == set_code
      then items
      else if t == map_code
      then entries
      else err (thrift_error unknown_type)

-- `skip`, nested as deep as Python lets it.
unfoldable pub skip : ℕ → Bytes → ℕ → Result Bytes
unfolding size_of need skip_composed
skip zero buf t = err recursion_error
skip (suc depth) buf t = elim (size_of t) [
  | some size ↦ need size buf
  | none ↦ skip_composed (skip depth) buf t
]
