-- ===== src/Thrift/Encode.antt =====
-- The encoding half of the struct codec of thrift.py. What Python appends to `out` is what a
-- function returns; an error drops it with the whole struct.
use grapec.Base.{
  ℕ, zero, suc, ◌-◌, Bool, true, false, ◌||◌, [], ◌∷◌, ◌++◌, none, some, ◌==◌, if◌then◌else◌,
  length,
}
use grapec.Base.Int.{ℤ, pos}
use grapec.Errors.{
  Result, ok, err, ◌>>=◌, encode_error, key_error, attribute_error, assertion_error,
  recursion_error,
}
use grapec.Protobuf.Decode.{Named, get}
use grapec.Protobuf.Scalars.{check_int, check_float, check_text, check_bytes}
use grapec.Schema.{
  Kind, TypeSpec, scalar, struct, timestamp, duration, list_of, map_of, one_of, FieldSpec, Fields,
  Classes, Value, null, obj, list, dict, Values, nil, cons, Entries, empty, entry, pick,
}
use grapec.Struct.{in_range, be_bytes, pack_signed, pack_unsigned}
use grapec.Thrift.{
  stop_code, bool_code, byte_code, double_code, i16_code, i32_code, i64_code, string_code,
  struct_code, map_code, list_code,
}
use grapec.Wire.{Bytes}

-- `_INT_TYPES[width]`
unfoldable pub int_type : ℕ → Result ℕ
int_type width =
    if width == 8
    then ok byte_code
    else if width == 16
    then ok i16_code
    else if width == 32
    then ok i32_code
    else if width == 64
    then ok i64_code
    else err key_error

-- How many bytes `_INT_STRUCTS[ttype]` packs.
unfoldable pub int_size : ℕ → Result ℕ
int_size ttype =
    if ttype == byte_code
    then ok 1
    else if ttype == i16_code
    then ok 2
    else if ttype == i32_code
    then ok 4
    else if ttype == i64_code
    then ok 8
    else err key_error

unfoldable pub type_of : TypeSpec → Result ℕ
unfolding int_type
type_of (scalar Kind.int width) = int_type width
type_of (scalar Kind.bool w) = ok bool_code
type_of (scalar Kind.float w) = ok double_code
type_of (scalar Kind.str w) = ok string_code
type_of (scalar Kind.bytes w) = ok string_code
type_of (TypeSpec.enum c) = ok i32_code
type_of (struct c) = ok struct_code
type_of (list_of item) = ok list_code
type_of (map_of key item) = ok map_code
type_of timestamp = err assertion_error
type_of duration = err assertion_error
type_of (one_of ms) = err assertion_error

-- `_HEADER.pack(ttype, number)`
unfoldable pub header : ℕ → ℕ → Result Bytes
header ttype number = do
  first ← pack_unsigned 1 ttype
  second ← pack_signed 2 (pos number)
  ok (first ++ second)

unfoldable pub encode_binary : Bytes → Result Bytes
encode_binary body = do size ← pack_signed 4 (pos (length body)); ok (size ++ body)

-- An int in a field of some width.
unfoldable pub encode_int : ℕ → ℤ → Result Bytes
unfolding int_type int_size
encode_int width z =
    let packed = (do ttype ← int_type width; size ← int_size ttype; pack_signed size z) in
    if in_range (width - 1) z then packed else err encode_error

unfoldable pub encode_enum : ℤ → Result Bytes
encode_enum z = let packed = pack_signed 4 z in if in_range 31 z then packed else err encode_error

-- `out.append(1 if … else 0)`
unfoldable pub encode_bool : Value → Result Bytes
encode_bool (Value.bool true) = ok (1 ∷ [])
encode_bool (Value.bool false) = ok (0 ∷ [])
encode_bool _ = err encode_error

unfoldable pub count_values : Values → ℕ
count_values nil = 0
count_values (cons v vs) = suc (count_values vs)

unfoldable pub count_entries : Entries → ℕ
count_entries empty = 0
count_entries (entry k v es) = suc (count_entries es)

-- The loops over the items of a list and the entries of a dict.
unfoldable pub encode_each : (Value → Result Bytes) → Values → Result Bytes
encode_each one nil = ok []
encode_each one (cons v vs) = do head ← one v; tail ← encode_each one vs; ok (head ++ tail)

unfoldable pub encode_pairs :
    (Value → Result Bytes) → (Value → Result Bytes) → Entries → Result Bytes
encode_pairs first second empty = ok []
encode_pairs first second (entry k v es) = do
  key ← first k
  item ← second v
  tail ← encode_pairs first second es
  ok (key ++ (item ++ tail))

unfoldable pub is_container : TypeSpec → Bool
is_container (list_of item) = true
is_container (map_of key item) = true
is_container _ = false

-- `values[field.name]`
unfoldable pub value_of : FieldSpec → Named → Result Value
unfolding get
value_of f values = elim (get f.name values) [ some v ↦ ok v | none ↦ err key_error ]

-- The functions below stand in a section for `_encode_struct`, which they call for a struct inside:
-- its class and its attributes.
module _ (nested : ℕ → Values → Result Bytes) where
  -- `_encode_value`
  unfoldable pub encode_value : TypeSpec → Value → Result Bytes
  unfolding type_of check_int check_float encode_int encode_enum encode_bool encode_binary
      encode_each encode_pairs count_values count_entries
  encode_value (scalar Kind.int width) v = (check_int v >>= λ z. encode_int width z)
  encode_value (TypeSpec.enum c) v = (check_int v >>= λ z. encode_enum z)
  encode_value (scalar Kind.bool w) v = encode_bool v
  encode_value (scalar Kind.float w) v = (check_float v >>= λ bits. ok (be_bytes 8 bits))
  encode_value (scalar Kind.str w) v = (check_text v >>= λ raw. encode_binary raw)
  encode_value (scalar Kind.bytes w) v = (check_bytes v >>= λ raw. encode_binary raw)
  encode_value (struct c) (obj d vs) =
      let body = nested c vs in if c == d then body else err encode_error
  encode_value (struct c) v = err encode_error
  encode_value (list_of item) (list vs) = do
    ttype ← type_of item
    size ← pack_signed 4 (pos (count_values vs))
    body ← encode_each (encode_value item) vs
    ok (ttype ∷ (size ++ body))
  encode_value (list_of item) v = err encode_error
  encode_value (map_of key item) (dict es) = do
    ktype ← type_of key
    vtype ← type_of item
    size ← pack_signed 4 (pos (count_entries es))
    body ← encode_pairs (encode_value key) (encode_value item) es
    ok (ktype ∷ (vtype ∷ (size ++ body)))
  encode_value (map_of key item) v = err encode_error
  encode_value timestamp v = err assertion_error
  encode_value duration v = err assertion_error
  encode_value (one_of ms) v = err assertion_error

  -- A header and the value behind it.
  unfoldable pub headed : ℕ → TypeSpec → Value → Result Bytes
  unfolding encode_value header type_of
  headed number spec v = do
    ttype ← type_of spec
    front ← header ttype number
    body ← encode_value spec v
    ok (front ++ body)

  -- `_encode_field` on a value other than None.
  unfoldable pub present : ℕ → TypeSpec → Value → Result Bytes
  unfolding headed pick
  present n (one_of ms) v = elim (pick ms v) [
    | none ↦ err encode_error
    | some (number, member_type) ↦ headed number member_type v
  ]
  present n spec v = headed n spec v

  unfoldable pub encode_field : FieldSpec → Value → Result Bytes
  unfolding present is_container
  encode_field f null = if f.optional || is_container f.type then ok [] else err encode_error
  encode_field f v = present f.number f.type v

  -- The fields of a struct or of a call, then STOP.
  unfoldable pub encode_fields : Fields → Named → Result Bytes
  unfolding encode_field value_of
  encode_fields [] values = ok (stop_code ∷ [])
  encode_fields (f ∷ fs) values = do
    v ← value_of f values
    head ← encode_field f v
    tail ← encode_fields fs values
    ok (head ++ tail)

-- `{f.name: getattr(obj, f.name) for f in schema.fields}`
unfoldable pub attributes : Fields → Values → Result Named
attributes [] vs = ok []
attributes (f ∷ fs) nil = err attribute_error
attributes (f ∷ fs) (cons v vs) = do rest ← attributes fs vs; ok ((f.name, v) ∷ rest)

-- `_encode_struct`, nested as deep as Python lets it.
unfoldable pub encode_struct : ℕ → Classes → ℕ → Values → Result Bytes
unfolding encode_fields attributes
encode_struct zero classes c vs = err recursion_error
encode_struct (suc depth) classes c vs = do
  values ← attributes (classes.fields_of c) vs
  encode_fields (encode_struct depth classes) (classes.fields_of c) values
