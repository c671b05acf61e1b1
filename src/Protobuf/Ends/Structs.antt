-- ===== src/Protobuf/Ends/Structs.antt =====
-- Whole structs: `_decode_field`, the loop over the fields, and `_decode_struct` on any bytes.
use grapec.Base.{
  ℕ, zero, suc, ◌≤◌, ◌<◌, ◌≡◌, arith, ◌&&◌, [], ◌∷◌, Option, none, some, ◌==◌, length, Bool-cases,
  inl, inr,
}
use grapec.Errors.{Result, ok, ◌>>=◌, >>=-eq-ok, FailsAs-bind}
use grapec.Protobuf.Decode.{
  Named, put, append_value, list_in, decode_single, decode_packed, decode_entry, packed_chunk,
  map_chunk, decode_field, decode_one, decode_loop, arguments, decode_struct, decode_data,
}
use grapec.Protobuf.Ends.{bytes_lem, single_lem, single_left, packed_lem, entry_lem}
use grapec.Protobuf.Scalars.{is_packed}
use grapec.Protobuf.Total.{
  IsReadError, Reads, on_wire, then_ok, zero_value-Reads, arguments-FailsAs,
}
use grapec.Schema.{
  TypeSpec, scalar, struct, timestamp, duration, list_of, map_of, one_of, FieldSpec, Fields,
  Classes, Value, obj, list, by_number,
}
use grapec.Schema.Zero.{zero_value}
use grapec.Text.{Str}
use grapec.Wire.{Bytes, Read, decode_tag, decode_bytes, skip_field, length_delimited}
use grapec.Wire.Faults.{decode_tag-FailsOnWire, skip_field-FailsOnWire}
use grapec.Wire.Progress.{decode_tag_takes, decode_bytes_takes, skip_field_takes}

module _ (nested : ℕ → Bytes → Result Value) (classes : Classes)
    (ends : (c : ℕ) (buf : Bytes) → Reads (nested c buf)) where
  -- A reader of one field of a struct: what it raises, and that it takes a byte.
  abbrev Takes : Bytes → Read Named → Type 0
  Takes buf r =
      Reads r × ((values : Named) (rest : Bytes) → r ≡ ok (values, rest) → length rest < length buf)

  abbrev plain : TypeSpec → Bytes → ℕ → (Value → Named) → Read Named
  plain spec buf wire_type f =
      (decode_single nested classes spec buf wire_type >>= λ (v, rest). ok (f v, rest))

  plain_lem :
      (spec : TypeSpec) (buf : Bytes) (wire_type : ℕ) (f : Value → Named)
      → Takes buf (plain spec buf wire_type f)
  plain_lem spec buf wire_type f = (
    then_ok (decode_single nested classes spec buf wire_type) _
        (single_lem nested classes ends spec buf wire_type),
    λ after rest e.
        (let ((v, left), read, same) =
            >>=-eq-ok (decode_single nested classes spec buf wire_type) _ e in
          ground (arith, single_left nested classes ends spec buf wire_type v left read)),
  )

  -- A field of length-delimited data whose chunk is read as a whole.
  abbrev chunked : Bytes → (Bytes → Result Named) → Read Named
  chunked buf read = (decode_bytes buf >>= λ (raw, rest). (read raw >>= λ after. ok (after, rest)))

  chunk_lem :
      (buf : Bytes) (read : Bytes → Result Named)
      → ((raw : Bytes) → Reads (read raw))
      → Takes buf (chunked buf read)
  chunk_lem buf read h = (
    FailsAs-bind IsReadError (decode_bytes buf) _ (bytes_lem buf)
        (λ (raw, rest) e. then_ok (read raw) (λ a. (a, rest)) (h raw)),
    λ after rest e.
        (let ((raw, left), taken, more) = >>=-eq-ok (decode_bytes buf) _ e in
          let (a, got, same) = >>=-eq-ok (read raw) _ more in
          ground (arith, decode_bytes_takes buf raw left taken)),
  )

  map_chunk_lem :
      (key item : TypeSpec) (name : Str) (values : Named) (chunk : Bytes)
      → Reads (map_chunk nested classes key item name values chunk)
  unfolding map_chunk
  map_chunk_lem key item name values chunk =
      FailsAs-bind IsReadError (zero_value classes.recursion_limit classes key) _
        (zero_value-Reads classes.recursion_limit classes key)
        λ k ek.
          FailsAs-bind IsReadError (zero_value classes.recursion_limit classes item) _
            (zero_value-Reads classes.recursion_limit classes item)
            λ v ev.
              then_ok (decode_entry nested classes (length chunk) key item chunk k v) _
                (entry_lem nested classes ends (length chunk) key item chunk k v (omega arith))

  packed_chunk_lem :
      (item : TypeSpec) (name : Str) (values : Named) (chunk : Bytes)
      → Reads (packed_chunk nested classes item name values chunk)
  unfolding packed_chunk
  packed_chunk_lem item name values chunk =
      then_ok (decode_packed nested classes (length chunk) item chunk (list_in name values)) _ (
        packed_lem nested classes ends (length chunk) item chunk (list_in name values)
          (omega arith))

  field_lem :
      (spec : TypeSpec) (name : Str) (values : Named) (buf : Bytes) (wire_type : ℕ)
      → Takes buf (decode_field nested classes spec name values buf wire_type)
  unfolding decode_field
  field_lem (list_of item) name values buf wire_type =
      elim (Bool-cases (wire_type == length_delimited && is_packed item)) [
        | inl packed ↦ rw packed (
            chunk_lem buf (packed_chunk nested classes item name values)
              (packed_chunk_lem item name values))
        | inr one ↦ rw one (
            plain_lem item buf wire_type
              (λ v. put name (list (append_value (list_in name values) v)) values))
      ]
  field_lem (map_of key item) name values buf wire_type =
      chunk_lem buf (map_chunk nested classes key item name values)
        (map_chunk_lem key item name values)
  field_lem (scalar k w) name values buf wire_type =
      plain_lem (scalar k w) buf wire_type (λ v. put name v values)
  field_lem (TypeSpec.enum c) name values buf wire_type =
      plain_lem (TypeSpec.enum c) buf wire_type (λ v. put name v values)
  field_lem (struct c) name values buf wire_type =
      plain_lem (struct c) buf wire_type (λ v. put name v values)
  field_lem timestamp name values buf wire_type =
      plain_lem timestamp buf wire_type (λ v. put name v values)
  field_lem duration name values buf wire_type =
      plain_lem duration buf wire_type (λ v. put name v values)
  field_lem (one_of ms) name values buf wire_type =
      plain_lem (one_of ms) buf wire_type (λ v. put name v values)

  one_lem :
      (fields : Fields) (number wire_type : ℕ) (buf : Bytes) (values : Named)
      → Takes buf (decode_one nested classes fields number wire_type buf values)
  unfolding decode_one
  one_lem fields number wire_type buf values = go (by_number fields number)
    where
      go :
          (entry : Option (FieldSpec × Option TypeSpec))
          → Takes buf (elim entry as (λ t. Read Named) [
            | none ↦ (skip_field buf wire_type >>= λ rest. ok (values, rest))
            | some (field, none) ↦
                decode_field nested classes field.type field.name values buf wire_type
            | some (field, some member) ↦ plain member buf wire_type (λ v. put field.name v values)
          ])
      go none = (
        then_ok (skip_field buf wire_type) _
            (on_wire (skip_field buf wire_type) (skip_field-FailsOnWire buf wire_type)),
        λ after rest e.
            (let (left, skipped, same) = >>=-eq-ok (skip_field buf wire_type) _ e in
              ground (arith, skip_field_takes buf wire_type left skipped)),
      )
      go (some (field, none)) = field_lem field.type field.name values buf wire_type
      go (some (field, some member)) = plain_lem member buf wire_type (λ v. put field.name v values)

  loop_lem :
      (fuel : ℕ) (fields : Fields) (buf : Bytes) (values : Named)
      → length buf ≤ fuel
      → Reads (decode_loop nested classes fuel fields buf values)
  unfolding decode_loop
  loop_lem fuel fields [] values h = tt
  loop_lem zero fields (b ∷ bs) values h = absurd (omega arith)
  loop_lem (suc fuel) fields (b ∷ bs) values h =
      FailsAs-bind IsReadError (decode_tag (b ∷ bs)) _
        (on_wire (decode_tag (b ∷ bs)) (decode_tag-FailsOnWire (b ∷ bs)))
        λ (number, wt, buf) e.
          (let (p, q, r, shorter) = decode_tag_takes (b ∷ bs) number wt buf e in
            let (reads, left) = one_lem fields number wt buf values in
            FailsAs-bind IsReadError (decode_one nested classes fields number wt buf values) _ reads
              λ (after, rest) eo.
                loop_lem fuel fields rest after (omega (arith, left after rest eo)))

decode_struct-Reads :
    (depth : ℕ) (classes : Classes) (c : ℕ) (buf : Bytes)
    → Reads (decode_struct depth classes c buf)
unfolding decode_struct
decode_struct-Reads zero classes c buf = tt
decode_struct-Reads (suc depth) classes c buf =
    FailsAs-bind IsReadError
      (decode_loop (decode_struct depth classes) classes (length buf) (classes.fields_of c) buf [])
      _
      (loop_lem (decode_struct depth classes) classes (decode_struct-Reads depth classes)
        (length buf) (classes.fields_of c) buf [] (omega arith))
      λ values e.
        then_ok (arguments classes (classes.fields_of c) values) (λ vs. obj c vs)
          (arguments-FailsAs IsReadError tt classes (classes.fields_of c) values)

-- Whatever the bytes and the class are, decoding a struct ends: with an instance, or with
-- WireError, an error of UTF-8, OverflowError, RecursionError or AssertionError.
pub decode_data-Reads :
    (classes : Classes) (c : ℕ) (buf : Bytes) → Reads (decode_data classes c buf)
unfolding decode_data
decode_data-Reads classes c buf = decode_struct-Reads classes.recursion_limit classes c buf
