-- ===== src/Protobuf/Ends.antt =====
-- The loops of the protobuf decoder, with what each round takes off its buffer.
pub mod Structs
use grapec.Base.{
  ℕ, zero, suc, ◌+◌, ◌≤◌, ◌<◌, ◌≡◌, refl, arith, Bool, ◌&&◌, not, List, [], ◌∷◌, Option, none, some,
  ◌==◌, if◌then◌else◌, length, Option-cases, inl, inr,
}
use grapec.Base.Int.{ℤ, pos}
use grapec.Errors.{Result, ok, err, ◌>>=◌, >>=-eq-ok, FailsAs, FailsAs-bind}
use grapec.Protobuf.Decode.{
  Named, get, put, append_value, list_in, dict_in, set_item, wire_type_of, decode_typed,
  decode_single, decode_packed, decode_entry, decode_field, decode_one, decode_loop, arguments,
  decode_struct, decode_data,
}
use grapec.Protobuf.Moments.{decode_timestamp, decode_duration}
use grapec.Protobuf.Scalars.{is_packed}
use grapec.Protobuf.Total.{
  IsReadError, Reads, on_wire, then_ok, text_lem, timestamp_lem, duration_lem, zero_value-Reads,
}
use grapec.Schema.{
  Kind, TypeSpec, scalar, struct, timestamp, duration, list_of, map_of, one_of, FieldSpec, Fields,
  Classes, Value, null, obj, list, dict, datetime, timedelta, Values, nil, cons, enum_value,
  by_number,
}
use grapec.Schema.Zero.{zero_value}
use grapec.Text.{Str, decode}
use grapec.Wire.{
  Bytes, Read, decode_varint, decode_tag, decode_double, decode_bytes, skip_field, length_delimited,
}
use grapec.Wire.Faults.{
  decode_varint-FailsOnWire, decode_tag-FailsOnWire, decode_bytes-FailsOnWire,
  decode_double-FailsOnWire, skip_field-FailsOnWire,
}
use grapec.Wire.Progress.{
  decode_varint_takes, decode_tag_takes, decode_bytes_takes, decode_double_takes, skip_field_takes,
}

varint_lem : (buf : Bytes) → Reads (decode_varint buf)
varint_lem buf = on_wire (decode_varint buf) (decode_varint-FailsOnWire buf)

pub bytes_lem : (buf : Bytes) → Reads (decode_bytes buf)
bytes_lem buf = on_wire (decode_bytes buf) (decode_bytes-FailsOnWire buf)

-- A reader behind a length, and a value made from a varint.
abbrev inner {ℓ} : {A : Type ℓ} → Bytes → (Bytes → Result A) → (A → Value) → Read Value
inner buf read f = (decode_bytes buf >>= λ (raw, rest). (read raw >>= λ a. ok (f a, rest)))

abbrev from_varint : Bytes → (ℕ → Value) → Read Value
from_varint buf f = (decode_varint buf >>= λ (raw, rest). ok (f raw, rest))

inner_lem {ℓ} :
    {A : Type ℓ} (buf : Bytes) (read : Bytes → Result A) (f : A → Value)
    → ((raw : Bytes) → Reads (read raw))
    → Reads (inner buf read f)
inner_lem buf read f h =
    FailsAs-bind IsReadError (decode_bytes buf) _ (bytes_lem buf)
      λ (raw, rest) e. then_ok (read raw) (λ a. (f a, rest)) (h raw)

-- What a reader leaves behind a value, where the value is made from a number or from bytes.
varint_left :
    (buf : Bytes) (f : ℕ → Value) (v : Value) (rest : Bytes)
    → from_varint buf f ≡ ok (v, rest)
    → length rest < length buf
varint_left buf f v rest e =
    let ((raw, after), read, same) = >>=-eq-ok (decode_varint buf) _ e in
    ground (arith, decode_varint_takes buf raw after read)

bytes_left {ℓ} :
    {A : Type ℓ} (buf : Bytes) (read : Bytes → Result A) (f : A → Value) (v : Value) (rest : Bytes)
    → inner buf read f ≡ ok (v, rest)
    → length rest < length buf
bytes_left buf read f v rest e =
    let ((raw, after), taken, more) = >>=-eq-ok (decode_bytes buf) _ e in
    let (a, got, same) = >>=-eq-ok (read raw) _ more in
    ground (arith, decode_bytes_takes buf raw after taken)

module _ (nested : ℕ → Bytes → Result Value) (classes : Classes)
    (ends : (c : ℕ) (buf : Bytes) → Reads (nested c buf)) where
  typed_lem : (spec : TypeSpec) (buf : Bytes) → Reads (decode_typed nested classes spec buf)
  unfolding decode_typed
  typed_lem (scalar Kind.int w) buf = then_ok (decode_varint buf) _ (varint_lem buf)
  typed_lem (scalar Kind.bool w) buf = then_ok (decode_varint buf) _ (varint_lem buf)
  typed_lem (TypeSpec.enum c) buf = then_ok (decode_varint buf) _ (varint_lem buf)
  typed_lem (scalar Kind.float w) buf =
      then_ok (decode_double buf) _ (on_wire (decode_double buf) (decode_double-FailsOnWire buf))
  typed_lem (scalar Kind.str w) buf = inner_lem buf decode Value.str text_lem
  typed_lem (scalar Kind.bytes w) buf = then_ok (decode_bytes buf) _ (bytes_lem buf)
  typed_lem (struct c) buf = inner_lem buf (nested c) (λ v. v) (ends c)
  typed_lem timestamp buf = inner_lem buf decode_timestamp datetime timestamp_lem
  typed_lem duration buf = inner_lem buf decode_duration timedelta duration_lem
  typed_lem (list_of item) buf = tt
  typed_lem (map_of key item) buf = tt
  typed_lem (one_of ms) buf = tt

  single_lem :
      (spec : TypeSpec) (buf : Bytes) (wire_type : ℕ)
      → Reads (decode_single nested classes spec buf wire_type)
  unfolding decode_single
  single_lem spec buf wire_type = ground (arith, typed_lem spec buf)

  typed_left :
      (spec : TypeSpec) (buf : Bytes) (v : Value) (rest : Bytes)
      → decode_typed nested classes spec buf ≡ ok (v, rest)
      → length rest < length buf
  unfolding decode_typed
  typed_left (scalar Kind.int w) buf v rest e = varint_left buf _ v rest e
  typed_left (scalar Kind.bool w) buf v rest e = varint_left buf _ v rest e
  typed_left (TypeSpec.enum c) buf v rest e = varint_left buf _ v rest e
  typed_left (scalar Kind.float w) buf v rest e =
      let ((bits, after), read, same) = >>=-eq-ok (decode_double buf) _ e in
      ground (arith, decode_double_takes buf bits after read)
  typed_left (scalar Kind.str w) buf v rest e = bytes_left buf decode Value.str v rest e
  typed_left (scalar Kind.bytes w) buf v rest e =
      let ((raw, after), read, same) = >>=-eq-ok (decode_bytes buf) _ e in
      ground (arith, decode_bytes_takes buf raw after read)
  typed_left (struct c) buf v rest e = bytes_left buf (nested c) (λ t. t) v rest e
  typed_left timestamp buf v rest e = bytes_left buf decode_timestamp datetime v rest e
  typed_left duration buf v rest e = bytes_left buf decode_duration timedelta v rest e
  typed_left (list_of item) buf v rest e = cc
  typed_left (map_of key item) buf v rest e = cc
  typed_left (one_of ms) buf v rest e = cc

  single_left :
      (spec : TypeSpec) (buf : Bytes) (wire_type : ℕ) (v : Value) (rest : Bytes)
      → decode_single nested classes spec buf wire_type ≡ ok (v, rest)
      → length rest < length buf
  unfolding decode_single
  single_left spec buf wire_type v rest e = ground (arith, typed_left spec buf v rest)

  packed_lem :
      (fuel : ℕ) (item : TypeSpec) (buf : Bytes) (vs : Values)
      → length buf ≤ fuel
      → Reads (decode_packed nested classes fuel item buf vs)
  unfolding decode_packed
  packed_lem fuel item [] vs h = tt
  packed_lem zero item (b ∷ bs) vs h = absurd (omega arith)
  packed_lem (suc fuel) item (b ∷ bs) vs h =
      FailsAs-bind IsReadError (decode_single nested classes item (b ∷ bs) (wire_type_of item)) _
        (single_lem item (b ∷ bs) (wire_type_of item))
        λ (v, rest) e.
          packed_lem fuel item rest (append_value vs v)
            (omega (arith, single_left item (b ∷ bs) (wire_type_of item) v rest e))

  entry_lem :
      (fuel : ℕ) (key item : TypeSpec) (buf : Bytes) (k v : Value)
      → length buf ≤ fuel
      → Reads (decode_entry nested classes fuel key item buf k v)
  unfolding decode_entry
  entry_lem fuel key item [] k v h = tt
  entry_lem zero key item (b ∷ bs) k v h = absurd (omega arith)
  entry_lem (suc fuel) key item (b ∷ bs) k v h =
      FailsAs-bind IsReadError (decode_tag (b ∷ bs)) _
        (on_wire (decode_tag (b ∷ bs)) (decode_tag-FailsOnWire (b ∷ bs)))
        λ (num, wt, buf) e.
          let (p, q, r, shorter) = decode_tag_takes (b ∷ bs) num wt buf e in
          let as_key =
            FailsAs-bind IsReadError (decode_single nested classes key buf wt)
              (λ a. decode_entry nested classes fuel key item a.1 a.0 v) (single_lem key buf wt)
              (λ (a, rest) ea.
                entry_lem fuel key item rest a v
                  (omega (arith, single_left key buf wt a rest ea))) in
          let as_value =
            FailsAs-bind IsReadError (decode_single nested classes item buf wt)
              (λ a. decode_entry nested classes fuel key item a.1 k a.0) (single_lem item buf wt)
              (λ (a, rest) ea.
                entry_lem fuel key item rest k a
                  (omega (arith, single_left item buf wt a rest ea))) in
          let skipped =
            FailsAs-bind IsReadError (skip_field buf wt)
              (λ rest. decode_entry nested classes fuel key item rest k v)
              (on_wire (skip_field buf wt) (skip_field-FailsOnWire buf wt))
              (λ rest er.
                entry_lem fuel key item rest k v
                  (omega (arith, skip_field_takes buf wt rest er))) in
          ground arith
