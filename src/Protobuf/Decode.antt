-- ===== src/Protobuf/Decode.antt =====
-- The decoding half of protobuf.py. A buffer is what is left of it from `pos` on, and `values` is a
-- list in which the first entry of a name counts.
use grapec.Base.{
  ℕ, zero, suc, Bool, true, false, ◌&&◌, not, List, [], ◌∷◌, Option, none, some, ◌==◌,
  if◌then◌else◌, length,
}
use grapec.Base.Int.{eqb_ℤ}
use grapec.Errors.{
  Result, ok, err, ◌>>=◌, wire_error, wire_type_mismatch, assertion_error, recursion_error, no_fuel,
}
use grapec.Protobuf.Moments.{decode_timestamp, decode_duration}
use grapec.Protobuf.Scalars.{is_packed}
use grapec.Schema.{
  Kind, TypeSpec, scalar, struct, timestamp, duration, list_of, map_of, Fields, Classes, Value,
  null, obj, list, dict, datetime, timedelta, Values, nil, cons, Entries, empty, entry, by_number,
  enum_value,
}
use grapec.Schema.Zero.{zero_value}
use grapec.Text.{Str, decode, same_text}
use grapec.Wire.{
  Bytes, Read, decode_varint, to_signed64, decode_tag, decode_double, decode_bytes, skip_field,
  varint, fixed64, length_delimited,
}

-- `_wire_type_of`
unfoldable pub wire_type_of : TypeSpec → ℕ
wire_type_of (scalar Kind.float w) = fixed64
wire_type_of (scalar Kind.int w) = varint
wire_type_of (scalar Kind.bool w) = varint
wire_type_of (TypeSpec.enum c) = varint
wire_type_of _ = length_delimited

-- The values by field name.
abbrev pub Named : Type 0
Named = List (Str × Value)

unfoldable pub get : Str → Named → Option Value
get name [] = none
get name ((key, v) ∷ rest) = if same_text key name then some v else get name rest

abbrev pub put : Str → Value → Named → Named
put name v values = (name, v) ∷ values

unfoldable pub append_value : Values → Value → Values
append_value nil v = cons v nil
append_value (cons x xs) v = cons x (append_value xs v)

-- Equality of the keys of a dict, which are ints, texts or bools.
abbrev pub same_key : Value → Value → Bool
same_key (Value.int a) (Value.int b) = eqb_ℤ a b
same_key (Value.str a) (Value.str b) = same_text a b
same_key (Value.bool true) (Value.bool b) = b
same_key (Value.bool false) (Value.bool b) = not b
same_key _ _ = false

-- `target[key] = val`: a key that is there keeps its place.
unfoldable pub set_item : Entries → Value → Value → Entries
set_item empty key v = entry key v empty
set_item (entry k old rest) key v =
    let after = set_item rest key v in if same_key k key then entry k v rest else entry k old after

-- `values.setdefault(name, [])` and `values.setdefault(name, {})`.
unfoldable pub list_in : Str → Named → Values
unfolding get
list_in name values = elim (get name values) [ some (list vs) ↦ vs | _ ↦ nil ]

unfoldable pub dict_in : Str → Named → Entries
unfolding get
dict_in name values = elim (get name values) [ some (dict es) ↦ es | _ ↦ empty ]

-- The functions below stand in a section for `_decode_struct`, which they call for a struct inside:
-- its class and its bytes.
module _ (nested : ℕ → Bytes → Result Value) (classes : Classes) where
  -- `_decode_single` behind the check of the wire type.
  unfoldable pub decode_typed : TypeSpec → Bytes → Read Value
  decode_typed (scalar Kind.int w) buf =
      (decode_varint buf >>= λ (raw, rest). ok (Value.int (to_signed64 raw), rest))
  decode_typed (scalar Kind.bool w) buf =
      (decode_varint buf >>= λ (raw, rest). ok (Value.bool (not (raw == 0)), rest))
  decode_typed (TypeSpec.enum c) buf =
      (decode_varint buf >>= λ (raw, rest). ok (enum_value classes c (to_signed64 raw), rest))
  decode_typed (scalar Kind.float w) buf =
      (decode_double buf >>= λ (bits, rest). ok (Value.float bits, rest))
  decode_typed (scalar Kind.str w) buf = do
    (raw, rest) ← decode_bytes buf
    s ← decode raw
    ok (Value.str s, rest)
  decode_typed (scalar Kind.bytes w) buf =
      (decode_bytes buf >>= λ (raw, rest). ok (Value.bytes raw, rest))
  decode_typed (struct c) buf = do (raw, rest) ← decode_bytes buf; v ← nested c raw; ok (v, rest)
  decode_typed timestamp buf = do
    (raw, rest) ← decode_bytes buf
    us ← decode_timestamp raw
    ok (datetime us, rest)
  decode_typed duration buf = do
    (raw, rest) ← decode_bytes buf
    us ← decode_duration raw
    ok (timedelta us, rest)
  decode_typed _ buf = err assertion_error

  unfoldable pub decode_single : TypeSpec → Bytes → ℕ → Read Value
  unfolding decode_typed wire_type_of
  decode_single spec buf wire_type =
      if wire_type == wire_type_of spec
      then decode_typed spec buf
      else err (wire_error wire_type_mismatch)

  -- The loop over a packed chunk; each round takes a byte at least.
  unfoldable pub decode_packed : ℕ → TypeSpec → Bytes → Values → Result Values
  unfolding decode_single append_value
  decode_packed fuel item [] vs = ok vs
  decode_packed zero item (b ∷ bs) vs = err no_fuel
  decode_packed (suc fuel) item (b ∷ bs) vs = do
    (v, rest) ← decode_single item (b ∷ bs) (wire_type_of item)
    decode_packed fuel item rest (append_value vs v)

  -- The loop over the key and the value of an entry.
  unfoldable pub decode_entry :
      ℕ → TypeSpec → TypeSpec → Bytes → Value → Value → Result (Value × Value)
  unfolding decode_single
  decode_entry fuel key item [] k v = ok (k, v)
  decode_entry zero key item (b ∷ bs) k v = err no_fuel
  decode_entry (suc fuel) key item (b ∷ bs) k v = do
    (num, wt, buf) ← decode_tag (b ∷ bs)
    let as_key = (do (k', rest) ← decode_single key buf wt; decode_entry fuel key item rest k' v)
    let as_value = (do (v', rest) ← decode_single item buf wt; decode_entry fuel key item rest k v')
    let skipped = (do rest ← skip_field buf wt; decode_entry fuel key item rest k v)
    if num == 1 then as_key else if num == 2 then as_value else skipped

  -- What `_decode_field` reads from the chunk of a packed list, and from that of a map.
  unfoldable pub packed_chunk : TypeSpec → Str → Named → Bytes → Result Named
  unfolding decode_packed list_in
  packed_chunk item name values chunk = do
    vs ← decode_packed (length chunk) item chunk (list_in name values)
    ok (put name (list vs) values)

  unfoldable pub map_chunk : TypeSpec → TypeSpec → Str → Named → Bytes → Result Named
  unfolding decode_entry dict_in set_item
  map_chunk key item name values chunk = do
    k ← zero_value classes.recursion_limit classes key
    v ← zero_value classes.recursion_limit classes item
    (k', v') ← decode_entry (length chunk) key item chunk k v
    ok (put name (dict (set_item (dict_in name values) k' v')) values)

  -- `_decode_field`: the values and the rest of the buffer.
  unfoldable pub decode_field : TypeSpec → Str → Named → Bytes → ℕ → Read Named
  unfolding decode_single packed_chunk map_chunk append_value list_in
  decode_field (list_of item) name values buf wire_type =
      if wire_type == length_delimited && is_packed item
      then (do
        (chunk, rest) ← decode_bytes buf
        after ← packed_chunk item name values chunk
        ok (after, rest))
      else (do
        (v, rest) ← decode_single item buf wire_type
        ok (put name (list (append_value (list_in name values) v)) values, rest))
  decode_field (map_of key item) name values buf wire_type = do
    (chunk, rest) ← decode_bytes buf
    after ← map_chunk key item name values chunk
    ok (after, rest)
  decode_field spec name values buf wire_type = do
    (v, rest) ← decode_single spec buf wire_type
    ok (put name v values, rest)

  -- The body of the loop in `_decode_struct`, behind the tag.
  unfoldable pub decode_one : Fields → ℕ → ℕ → Bytes → Named → Read Named
  unfolding decode_field decode_single
  decode_one fields number wire_type buf values = elim (by_number fields number) [
    | none ↦ (skip_field buf wire_type >>= λ rest. ok (values, rest))
    | some (field, none) ↦ decode_field field.type field.name values buf wire_type
    | some (field, some member) ↦ (do
      (v, rest) ← decode_single member buf wire_type
      ok (put field.name v values, rest))
  ]

  -- The loop; each round takes a byte at least.
  unfoldable pub decode_loop : ℕ → Fields → Bytes → Named → Result Named
  unfolding decode_one
  decode_loop fuel fields [] values = ok values
  decode_loop zero fields (b ∷ bs) values = err no_fuel
  decode_loop (suc fuel) fields (b ∷ bs) values = do
    (number, wire_type, buf) ← decode_tag (b ∷ bs)
    (after, rest) ← decode_one fields number wire_type buf values
    decode_loop fuel fields rest after

-- The arguments of the constructor, in the order of the fields.
unfoldable pub arguments : Classes → Fields → Named → Result Values
unfolding get
arguments classes [] values = ok nil
arguments classes (f ∷ fs) values = do
  v ← elim (get f.name values) [
    | some v ↦ ok v
    | none ↦ if f.optional then ok null else zero_value classes.recursion_limit classes f.type
  ]
  vs ← arguments classes fs values
  ok (cons v vs)

-- `_decode_struct`, nested as deep as Python lets it.
unfoldable pub decode_struct : ℕ → Classes → ℕ → Bytes → Result Value
unfolding decode_loop arguments
decode_struct zero classes c buf = err recursion_error
decode_struct (suc depth) classes c buf = do
  values ←
      decode_loop (decode_struct depth classes) classes (length buf) (classes.fields_of c) buf []
  vs ← arguments classes (classes.fields_of c) values
  ok (obj c vs)

-- `decode(cls, data)`
unfoldable pub decode_data : Classes → ℕ → Bytes → Result Value
unfolding decode_struct
decode_data classes c buf = decode_struct classes.recursion_limit classes c buf
