-- ===== src/Protobuf/Unknown.antt =====
-- Fields of a message that the schema does not know, in protobuf.py and wire.py.
use grapec.Base.{ℕ, suc, ◌^◌, ◌<◌, ◌≡◌, refl, arith, [], ◌∷◌, ◌++◌, none, length}
use grapec.Errors.{Result, ok, >>=-eq-ok}
use grapec.Protobuf.Decode.{
  Named, decode_typed, decode_single, wire_type_of, decode_one, decode_loop,
}
use grapec.Protobuf.Moments.{decode_timestamp, decode_duration}
use grapec.Protobuf.RoundTrip.{IsPlain, decode-encode_leaf}
use grapec.Protobuf.Scalars.{encode_leaf}
use grapec.Schema.{
  Kind, TypeSpec, scalar, struct, timestamp, duration, list_of, map_of, one_of, Fields, Classes,
  Value, by_number,
}
use grapec.Text.{decode}
use grapec.Wire.{Bytes, decode_varint, decode_tag, decode_double, decode_bytes, skip_field}
use grapec.Wire.Fields.{skip_field-read_varint, skip_field-read_bytes, skip_field-read_double}
use grapec.Wire.Progress.{decode_tag_takes}

module _ (nested : ℕ → Bytes → Result Value) (classes : Classes) where
  typed_skip :
      (spec : TypeSpec) (buf : Bytes) (v : Value) (rest : Bytes)
      → decode_typed nested classes spec buf ≡ ok (v, rest)
      → skip_field buf (wire_type_of spec) ≡ ok rest
  unfolding decode_typed wire_type_of
  typed_skip (scalar Kind.int w) buf v rest e =
      let ((raw, left), read, same) = >>=-eq-ok (decode_varint buf) _ e in
      skip_field-read_varint buf raw rest (ground arith)
  typed_skip (scalar Kind.bool w) buf v rest e =
      let ((raw, left), read, same) = >>=-eq-ok (decode_varint buf) _ e in
      skip_field-read_varint buf raw rest (ground arith)
  typed_skip (TypeSpec.enum c) buf v rest e =
      let ((raw, left), read, same) = >>=-eq-ok (decode_varint buf) _ e in
      skip_field-read_varint buf raw rest (ground arith)
  typed_skip (scalar Kind.float w) buf v rest e =
      let ((bits, left), read, same) = >>=-eq-ok (decode_double buf) _ e in
      skip_field-read_double buf bits rest (ground arith)
  typed_skip (scalar Kind.bytes w) buf v rest e =
      let ((raw, left), read, same) = >>=-eq-ok (decode_bytes buf) _ e in
      skip_field-read_bytes buf raw rest (ground arith)
  typed_skip (scalar Kind.str w) buf v rest e =
      let ((raw, left), read, more) = >>=-eq-ok (decode_bytes buf) _ e in
      let (a, got, same) = >>=-eq-ok (decode raw) _ more in
      skip_field-read_bytes buf raw rest (ground arith)
  typed_skip (struct c) buf v rest e =
      let ((raw, left), read, more) = >>=-eq-ok (decode_bytes buf) _ e in
      let (a, got, same) = >>=-eq-ok (nested c raw) _ more in
      skip_field-read_bytes buf raw rest (ground arith)
  typed_skip timestamp buf v rest e =
      let ((raw, left), read, more) = >>=-eq-ok (decode_bytes buf) _ e in
      let (a, got, same) = >>=-eq-ok (decode_timestamp raw) _ more in
      skip_field-read_bytes buf raw rest (ground arith)
  typed_skip duration buf v rest e =
      let ((raw, left), read, more) = >>=-eq-ok (decode_bytes buf) _ e in
      let (a, got, same) = >>=-eq-ok (decode_duration raw) _ more in
      skip_field-read_bytes buf raw rest (ground arith)
  typed_skip (list_of item) buf v rest e = cc
  typed_skip (map_of key item) buf v rest e = cc
  typed_skip (one_of ms) buf v rest e = cc

  -- Where reading a value of any type succeeds, skip_field under the same wire type takes exactly
  -- the same bytes.
  pub skip_field-decode_single :
      (spec : TypeSpec) (buf : Bytes) (wire_type : ℕ) (v : Value) (rest : Bytes)
      → decode_single nested classes spec buf wire_type ≡ ok (v, rest)
      → skip_field buf wire_type ≡ ok rest
  unfolding decode_single
  skip_field-decode_single spec buf wire_type v rest e = ground (arith, typed_skip spec buf v rest)

  -- A field that holds a scalar, enum member, datetime or timedelta, of fewer than 2 ^ 64 bytes
  -- and under a number from 1 to 2 ^ 61 - 1 that the schema does not have, is passed over by the
  -- loop over the fields, which goes on behind it with its values unchanged.
  pub decode_loop-unknown :
      (fuel n : ℕ) (fields : Fields) (spec : TypeSpec) (v : Value) (out rest : Bytes)
      (values : Named)
      → by_number fields n ≡ none
      → IsPlain classes spec v
      → encode_leaf n spec v ≡ ok out
      → length out < 2 ^ 64
      → 0 < n
      → n < 2 ^ 61
      → decode_loop nested classes (suc fuel) fields (out ++ rest) values
        ≡ decode_loop nested classes fuel fields rest values
  decode_loop-unknown fuel n fields spec v out rest values unknown_one plain e small h0 h1 =
      let (after, tag, read) =
        decode-encode_leaf nested classes n rest h0 h1 spec v out plain e small in
      go (out ++ rest) after tag
        (skip_field-decode_single spec after (wire_type_of spec) v rest read)
    where
      go :
          (buf after : Bytes)
          → decode_tag buf ≡ ok (n, wire_type_of spec, after)
          → skip_field after (wire_type_of spec) ≡ ok rest
          → decode_loop nested classes (suc fuel) fields buf values
            ≡ decode_loop nested classes fuel fields rest values
      go [] after tag skipped =
          let (p, q, r, shorter) = decode_tag_takes [] n (wire_type_of spec) after tag in
          absurd (omega arith)
      go (b ∷ bs) after tag skipped =
          unfold decode_loop decode_one in rw (tag, decode_one, unknown_one, skipped) refl
