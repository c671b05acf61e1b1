-- ===== src/Thrift/Decode.antt =====
-- The decoding half of the struct codec of thrift.py. A buffer is what is left of it from `pos` on,
-- and `values` is a list in which the first entry of a name counts.
use grapec.Base.{
  ℕ, zero, suc, ◌&&◌, ◌||◌, not, List, [], ◌∷◌, ◌++◌, Option, none, some, ◌==◌, if◌then◌else◌,
  length, take,
}
use grapec.Base.Int.{ℤ, pos, negsuc}
use grapec.Errors.{
  Result, ok, err, ◌>>=◌, thrift_error, type_mismatch, assertion_error, recursion_error, no_fuel,
}
use grapec.Protobuf.Decode.{Named, put, append_value, set_item, arguments}
use grapec.Schema.{
  Kind, TypeSpec, scalar, struct, timestamp, duration, list_of, map_of, one_of, FieldSpec, Fields,
  Classes, Value, obj, list, dict, Values, nil, Entries, empty, by_number, enum_value,
}
use grapec.Struct.{unpack_unsigned}
use grapec.Text.{decode}
use grapec.Thrift.{
  need, read, read_byte, read_binary, check_count, skip, stop_code, list_code, set_code,
}
use grapec.Thrift.Encode.{type_of, int_size}
use grapec.Wire.{Bytes, Read}

-- `by_number.get(number)`: the index has no negative numbers.
unfoldable pub entry_of : Fields → ℤ → Option (FieldSpec × Option TypeSpec)
unfolding by_number
entry_of fields (pos n) = by_number fields n
entry_of fields (negsuc n) = none

-- `_read(_DOUBLE, …)`: the pattern.
unfoldable pub read_double : Bytes → Read ℕ
read_double buf = do rest ← need 8 buf; ok (unpack_unsigned (take 8 buf), rest)

-- The check in front of `_decode_value`: a set may stand for a list.
unfoldable pub expect : TypeSpec → ℕ → Result (Unit {0})
unfolding type_of
expect spec ttype = do
  expected ← type_of spec
  if ttype == expected || (expected == list_code && ttype == set_code)
      then ok tt
      else err (thrift_error type_mismatch)

-- The loops over the items of a list and the entries of a map.
unfoldable pub decode_each : (Bytes → Read Value) → ℕ → Bytes → Values → Result (Values × Bytes)
unfolding append_value
decode_each one zero buf out = ok (out, buf)
decode_each one (suc n) buf out = do
  (v, rest) ← one buf
  decode_each one n rest (append_value out v)

unfoldable pub decode_pairs :
    (Bytes → Read Value) → (Bytes → Read Value) → ℕ → Bytes → Entries → Result (Entries × Bytes)
unfolding set_item
decode_pairs first second zero buf entries = ok (entries, buf)
decode_pairs first second (suc n) buf entries = do
  (k, buf1) ← first buf
  (v, buf2) ← second buf1
  decode_pairs first second n buf2 (set_item entries k v)

-- The functions below stand in a section for `decode_struct`, which they call for a struct inside.
module _ (nested : ℕ → Bytes → Read Value) (classes : Classes) where
  -- `_decode_value` behind the check of the type.
  unfoldable pub decode_typed : TypeSpec → Bytes → ℕ → Read Value
  unfolding int_size expect read_double decode_each decode_pairs
  decode_typed (scalar Kind.int w) buf ttype = do
    size ← int_size ttype
    (z, rest) ← read size buf
    ok (Value.int z, rest)
  decode_typed (TypeSpec.enum c) buf ttype = do
    (z, rest) ← read 4 buf
    ok (enum_value classes c z, rest)
  decode_typed (scalar Kind.bool w) buf ttype = do
    (raw, rest) ← read_byte buf
    ok (Value.bool (not (raw == 0)), rest)
  decode_typed (scalar Kind.float w) buf ttype = do
    (bits, rest) ← read_double buf
    ok (Value.float bits, rest)
  decode_typed (scalar Kind.str w) buf ttype = do
    (raw, rest) ← read_binary buf
    s ← decode raw
    ok (Value.str s, rest)
  decode_typed (scalar Kind.bytes w) buf ttype = do
    (raw, rest) ← read_binary buf
    ok (Value.bytes raw, rest)
  decode_typed (struct c) buf ttype = nested c buf
  decode_typed (list_of item) buf ttype = do
    (etype, buf1) ← read_byte buf
    (count, buf2) ← read 4 buf1
    n ← check_count count
    (vs, rest) ←
        decode_each (λ b. (expect item etype >>= λ t. decode_typed item b etype)) n buf2 nil
    ok (list vs, rest)
  decode_typed (map_of key item) buf ttype = do
    (ktype, buf1) ← read_byte buf
    (vtype, buf2) ← read_byte buf1
    (count, buf3) ← read 4 buf2
    n ← check_count count
    (es, rest) ←
        decode_pairs (λ b. (expect key ktype >>= λ t. decode_typed key b ktype))
          (λ b. (expect item vtype >>= λ t. decode_typed item b vtype)) n buf3 empty
    ok (dict es, rest)
  decode_typed timestamp buf ttype = err assertion_error
  decode_typed duration buf ttype = err assertion_error
  decode_typed (one_of ms) buf ttype = err assertion_error

  -- `_decode_value`
  unfoldable pub decode_value : TypeSpec → Bytes → ℕ → Read Value
  unfolding decode_typed expect
  decode_value spec buf ttype = (expect spec ttype >>= λ t. decode_typed spec buf ttype)

  -- A field behind its header: the values with it, and the numbers that are not in the index.
  unfoldable pub decode_one :
      Fields → ℤ → ℕ → Bytes → Named → List ℤ → Result (Named × List ℤ × Bytes)
  unfolding decode_value entry_of
  decode_one fields number ttype buf values unknown = elim (entry_of fields number) [
    | none ↦
        (skip classes.recursion_limit buf ttype >>= λ rest.
        ok (values, unknown ++ (number ∷ []), rest))
    | some (field, none) ↦ (do
      (v, rest) ← decode_value field.type buf ttype
      ok (put field.name v values, unknown, rest))
    | some (field, some member) ↦ (do
      (v, rest) ← decode_value member buf ttype
      ok (put field.name v values, unknown, rest))
  ]

  -- `decode_fields`; each round takes a byte at least.
  unfoldable pub decode_loop : ℕ → Fields → Bytes → Named → List ℤ → Result (Named × List ℤ × Bytes)
  unfolding decode_one
  decode_loop zero fields buf values unknown = err no_fuel
  decode_loop (suc fuel) fields buf values unknown = do
    (ttype, buf1) ← read_byte buf
    let more = (do
      (number, buf2) ← read 2 buf1
      (values', unknown', rest) ← decode_one fields number ttype buf2 values unknown
      decode_loop fuel fields rest values' unknown')
    if ttype == stop_code then ok (values, unknown, buf1) else more

  unfoldable pub decode_fields : Fields → Bytes → Result (Named × List ℤ × Bytes)
  unfolding decode_loop
  decode_fields fields buf = decode_loop (suc (length buf)) fields buf [] []

-- `decode_struct`, nested as deep as Python lets it.
unfoldable pub decode_struct : ℕ → Classes → ℕ → Bytes → Read Value
unfolding decode_fields arguments
decode_struct zero classes c buf = err recursion_error
decode_struct (suc depth) classes c buf = do
  (values, unknown, rest) ←
      decode_fields (decode_struct depth classes) classes (classes.fields_of c) buf
  vs ← arguments classes (classes.fields_of c) values
  ok (obj c vs, rest)
