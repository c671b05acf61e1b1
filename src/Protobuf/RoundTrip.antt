-- ===== src/Protobuf/RoundTrip.antt =====
-- The fields of protobuf.py that hold no other values, written and read.
use grapec.Base.{
  ℕ, ◌^◌, ◌<◌, ◌≡◌, refl, sym, ap, ◌∙◌, Bool, true, false, not, ◌++◌, append_assoc, ◌==◌, length,
  length-append, arith,
}
use grapec.Base.Int.{ℤ, pos}
use grapec.Errors.{Result, ok, >>=-eq-ok}
use grapec.Protobuf.Decode.{decode_typed, decode_single, wire_type_of}
use grapec.Protobuf.Moments.{encode_timestamp, encode_duration, is_datetime, is_timedelta}
use grapec.Protobuf.Moments.RoundTrip.{decode-encode_timestamp, decode-encode_duration}
use grapec.Protobuf.Scalars.{check_int, check_bool, check_float, encode_leaf, framed, fits_64}
use grapec.Schema.{
  Kind, TypeSpec, scalar, timestamp, duration, Classes, Value, datetime, timedelta, elem,
  enum_value,
}
use grapec.Text.{Str, encode, decode}
use grapec.Text.RoundTrip.{IsText, decode-encode}
use grapec.Wire.{
  Bytes, encode_varint, and_mask64, encode_tag, decode_tag, encode_bytes, encode_double, varint,
  fixed64, length_delimited,
}
use grapec.Wire.Fields.{
  decode_tag-encode_tag, decode_bytes-encode_bytes, decode_double-encode_double,
}
use grapec.Wire.Varint.{
  decode_varint-encode_varint, to_signed64-and_mask64, and_mask64-small, IsInt64,
}

-- The values that a decoder makes for a type: an enum value that has a member is that member.
pub data IsPlain (classes : Classes) : TypeSpec → Value → Type 0 where
  an_int : (w : ℕ) (z : ℤ) → IsPlain classes (scalar Kind.int w) (Value.int z)
  a_bool : (w : ℕ) (b : Bool) → IsPlain classes (scalar Kind.bool w) (Value.bool b)
  a_float : (w bits : ℕ) → bits < 2 ^ 64 → IsPlain classes (scalar Kind.float w) (Value.float bits)
  a_text : (w : ℕ) (s : Str) → IsText s → IsPlain classes (scalar Kind.str w) (Value.str s)
  a_bytes : (w : ℕ) (b : Bytes) → IsPlain classes (scalar Kind.bytes w) (Value.bytes b)
  a_member :
      (c : ℕ) (z : ℤ)
      → elem z (classes.values_of c) ≡ true
      → IsPlain classes (TypeSpec.enum c) (Value.enum c z)
  a_datetime : (us : ℤ) → is_datetime us ≡ true → IsPlain classes timestamp (datetime us)
  a_timedelta : (us : ℤ) → is_timedelta us ≡ true → IsPlain classes duration (timedelta us)

pub fits_64_lem : (z w : ℤ) → fits_64 z ≡ ok w → (w ≡ z) × IsInt64 z
fits_64_lem z w e = ground arith

module _ (nested : ℕ → Bytes → Result Value) (classes : Classes) where
  -- A field that is read back: its tag, and its value behind it.
  abbrev pub ReadsBack : ℕ → TypeSpec → Value → Bytes → Bytes → Type 0
  ReadsBack n spec v out rest =
      (after : Bytes) × (decode_tag (out ++ rest) ≡ ok (n, wire_type_of spec, after))
      × (decode_single nested classes spec after (wire_type_of spec) ≡ ok (v, rest))

  module _ (n : ℕ) (rest : Bytes) (h0 : 0 < n) (h1 : n < 2 ^ 61) where
    tagged :
        (spec : TypeSpec) (v : Value) (payload : Bytes)
        → wire_type_of spec < 8
        → decode_single nested classes spec (payload ++ rest) (wire_type_of spec) ≡ ok (v, rest)
        → ReadsBack n spec v (encode_tag n (wire_type_of spec) ++ payload) rest
    tagged spec v payload small e = (
      payload ++ rest,
      rw (append_assoc (encode_tag n (wire_type_of spec)) payload rest)
          (decode_tag-encode_tag n (wire_type_of spec) (payload ++ rest) h0 h1 small),
      e,
    )

    int_back :
        (z : ℤ) (w : ℕ)
        → IsInt64 z
        → ReadsBack n
            (scalar Kind.int w)
            (Value.int z)
            (encode_tag n varint ++ encode_varint z)
            rest
    int_back z w h =
        unfold wire_type_of in
        (tagged (scalar Kind.int w) (Value.int z) (encode_varint z) (omega arith) (
          unfold decode_single decode_typed in
          rw (decode_varint-encode_varint z rest, to_signed64-and_mask64 z h) refl))

    bit : (b : Bool) (z : ℤ) → check_bool (Value.bool b) ≡ ok z → not (and_mask64 z == 0) ≡ b
    unfolding check_bool
    bit true z e = ground (arith, and_mask64-small 1 (omega arith))
    bit false z e = ground (arith, and_mask64-small 0 (omega arith))

    bool_back :
        (b : Bool) (w : ℕ) (z : ℤ)
        → check_bool (Value.bool b) ≡ ok z
        → ReadsBack n
            (scalar Kind.bool w)
            (Value.bool b)
            (encode_tag n varint ++ encode_varint z)
            rest
    bool_back b w z e =
        unfold wire_type_of in
        (tagged (scalar Kind.bool w) (Value.bool b) (encode_varint z) (omega arith) (
          unfold decode_single decode_typed in
          rw (decode_varint-encode_varint z rest, bit b z e) refl))

    enum_back :
        (c : ℕ) (z : ℤ)
        → IsInt64 z
        → elem z (classes.values_of c) ≡ true
        → ReadsBack n
            (TypeSpec.enum c)
            (Value.enum c z)
            (encode_tag n varint ++ encode_varint z)
            rest
    enum_back c z h member =
        unfold wire_type_of in
        (tagged (TypeSpec.enum c) (Value.enum c z) (encode_varint z) (omega arith) (
          unfold decode_single decode_typed enum_value in
          rw (decode_varint-encode_varint z rest, to_signed64-and_mask64 z h, member) refl))

    float_back :
        (bits w : ℕ)
        → bits < 2 ^ 64
        → ReadsBack n
            (scalar Kind.float w)
            (Value.float bits)
            (encode_tag n fixed64 ++ encode_double bits)
            rest
    float_back bits w h =
        unfold wire_type_of in
        (tagged (scalar Kind.float w) (Value.float bits) (encode_double bits) (omega arith)
          (unfold decode_single decode_typed in rw (decode_double-encode_double bits rest h) refl))

    inner_length : (raw : Bytes) → length (framed n raw) < 2 ^ 64 → length raw < 2 ^ 64
    unfolding encode_bytes
    inner_length raw h = omega (
      arith,
      length-append (encode_tag n length_delimited) (encode_bytes raw),
      length-append (encode_varint (pos (length raw))) raw,
    )

    -- The types of length-delimited data.
    text_back :
        (s : Str) (w : ℕ) (raw : Bytes)
        → encode s ≡ ok raw
        → IsText s
        → length (framed n raw) < 2 ^ 64
        → ReadsBack n (scalar Kind.str w) (Value.str s) (framed n raw) rest
    text_back s w raw e text small =
        let (raw', e', back) = decode-encode s text in
        let same : raw' ≡ raw = cc in
        let read : decode raw ≡ ok s = ap decode (sym same) ∙ back in
        unfold wire_type_of in
        (tagged (scalar Kind.str w) (Value.str s) (encode_bytes raw) (omega arith) (
          unfold decode_single decode_typed in
          rw (decode_bytes-encode_bytes raw rest (inner_length raw small), read) refl))

    bytes_back :
        (b : Bytes) (w : ℕ)
        → length (framed n b) < 2 ^ 64
        → ReadsBack n (scalar Kind.bytes w) (Value.bytes b) (framed n b) rest
    bytes_back b w small =
        unfold wire_type_of in
        (tagged (scalar Kind.bytes w) (Value.bytes b) (encode_bytes b) (omega arith) (
          unfold decode_single decode_typed in
          rw (decode_bytes-encode_bytes b rest (inner_length b small)) refl))

    timestamp_back :
        (us : ℤ)
        → is_datetime us ≡ true
        → length (framed n (encode_timestamp us)) < 2 ^ 64
        → ReadsBack n timestamp (datetime us) (framed n (encode_timestamp us)) rest
    timestamp_back us h small =
        unfold wire_type_of in
        (tagged timestamp (datetime us) (encode_bytes (encode_timestamp us)) (omega arith) (
          unfold decode_single decode_typed in
          rw
            (
              decode_bytes-encode_bytes (encode_timestamp us) rest
                  (inner_length (encode_timestamp us) small),
              decode-encode_timestamp us h,
            )
            refl))

    duration_back :
        (us : ℤ)
        → is_timedelta us ≡ true
        → length (framed n (encode_duration us)) < 2 ^ 64
        → ReadsBack n duration (timedelta us) (framed n (encode_duration us)) rest
    duration_back us h small =
        unfold wire_type_of in
        (tagged duration (timedelta us) (encode_bytes (encode_duration us)) (omega arith) (
          unfold decode_single decode_typed in
          rw
            (
              decode_bytes-encode_bytes (encode_duration us) rest
                  (inner_length (encode_duration us) small),
              decode-encode_duration us h,
            )
            refl))

    -- A scalar, enum member, datetime or timedelta that is encoded as a field, in fewer than 2 ^
    -- 64 bytes and under a number from 1 to 2 ^ 61 - 1, is decoded to the same number, wire type
    -- and value, with what follows left over.
    pub decode-encode_leaf :
        (spec : TypeSpec) (v : Value) (out : Bytes)
        → IsPlain classes spec v
        → encode_leaf n spec v ≡ ok out
        → length out < 2 ^ 64
        → ReadsBack n spec v out rest
    unfolding encode_leaf check_int check_float
    decode-encode_leaf spec v out (IsPlain.an_int w z) e small =
        let (z', fits, same) = >>=-eq-ok (fits_64 z) _ e in
        let (ez, range) = fits_64_lem z z' fits in
        let eo : encode_tag n varint ++ encode_varint z ≡ out = ground arith in
        rw (← eo) (int_back z w range)
    decode-encode_leaf spec v out (IsPlain.a_bool w b) e small =
        let (z, checked, same) = >>=-eq-ok (check_bool (Value.bool b)) _ e in
        let eo : encode_tag n varint ++ encode_varint z ≡ out = ground arith in
        rw (← eo) (bool_back b w z checked)
    decode-encode_leaf spec v out (IsPlain.a_float w bits p) e small =
        let eo : encode_tag n fixed64 ++ encode_double bits ≡ out = ground arith in
        rw (← eo) (float_back bits w p)
    decode-encode_leaf spec v out (IsPlain.a_text w s p) e small =
        let (raw, encoded, same) = >>=-eq-ok (encode s) _ e in
        let eo : framed n raw ≡ out = ground arith in
        rw (← eo) (text_back s w raw encoded p (rw eo small))
    decode-encode_leaf spec v out (IsPlain.a_bytes w b) e small =
        let eo : framed n b ≡ out = ground arith in rw (← eo) (bytes_back b w (rw eo small))
    decode-encode_leaf spec v out (IsPlain.a_member c z member) e small =
        let (z', fits, same) = >>=-eq-ok (fits_64 z) _ e in
        let (ez, range) = fits_64_lem z z' fits in
        let eo : encode_tag n varint ++ encode_varint z ≡ out = ground arith in
        rw (← eo) (enum_back c z range member)
    decode-encode_leaf spec v out (IsPlain.a_datetime us p) e small =
        let eo : framed n (encode_timestamp us) ≡ out = ground arith in
        rw (← eo) (timestamp_back us p (rw eo small))
    decode-encode_leaf spec v out (IsPlain.a_timedelta us p) e small =
        let eo : framed n (encode_duration us) ≡ out = ground arith in
        rw (← eo) (duration_back us p (rw eo small))
