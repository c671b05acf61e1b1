-- ===== src/Protobuf/Examples.antt =====
-- Runs of protobuf.py, and instances of what is proved about it.
use grapec.Base.{ℕ, none, ◌++◌, ◌+◌, ◌^◌, ◌≡◌, refl, arith, true, false, [], ◌∷◌}
use grapec.Base.Int.{pos, negsuc}
use grapec.Errors.{Result, ok, err, encode_error}
use grapec.Float.{double_of}
use grapec.Protobuf.Decode.{decode_single, decode_loop, decode_data}
use grapec.Protobuf.Encode.{encode}
use grapec.Protobuf.Ends.Structs.{decode_data-Reads}
use grapec.Protobuf.RoundTrip.{IsPlain, ReadsBack, decode-encode_leaf}
use grapec.Protobuf.Scalars.{encode_leaf, packed_item, truthy, is_packed, is_zero}
use grapec.Protobuf.Unknown.{skip_field-decode_single, decode_loop-unknown}
use grapec.Protobuf.Total.{Reads}
use grapec.Schema.{Kind, scalar, list_of, Classes, Value, null, obj, list, nil, cons, by_number}
use grapec.Text.{decode, front, same_text}
use grapec.Wire.{
  skip_field, Bytes, and_mask64, encode_varint, decode_varint, to_signed64, encode_tag, decode_tag,
  encode_bytes, decode_bytes,
}

-- class P: x: int; y: int | None; tags: list[str]; ids: list[int]
abbrev point : Classes
point = record {
  fields_of = λ c.
      record { name = b'x' ∷ []; number = 1; type = scalar Kind.int 64; optional = false }
      ∷ record { name = b'y' ∷ []; number = 2; type = scalar Kind.int 64; optional = true }
      ∷ record {
        name = b't' ∷ [];
        number = 3;
        type = list_of (scalar Kind.str 64);
        optional = false;
      }
      ∷ record {
        name = b'i' ∷ [];
        number = 4;
        type = list_of (scalar Kind.int 64);
        optional = false;
      }
      ∷ [];
  values_of = λ c. [];
  recursion_limit = 10;
}

abbrev some_point : Value
some_point = obj 0 (
    cons (Value.int (pos 5)) (
      cons null (
        cons (list (cons (Value.str (b'a' ∷ [])) (cons (Value.str []) nil)))
          (cons (list (cons (Value.int (pos 1)) (cons (Value.int (pos 300)) nil))) nil))))

abbrev point_bytes : Bytes
point_bytes = 8 ∷ 5 ∷ 26 ∷ 1 ∷ b'a' ∷ 26 ∷ 0 ∷ 34 ∷ 3 ∷ 1 ∷ 0xac ∷ 2 ∷ []

encode_run : encode point some_point ≡ ok point_bytes
unfolding encode encode_tag encode_varint and_mask64 encode_bytes truthy is_packed
    grapec.Text.encode is_zero encode_leaf packed_item
encode_run = refl

decode_run : decode_data point 0 point_bytes ≡ ok some_point
unfolding decode_data decode_tag decode_varint to_signed64 decode_bytes decode front is_packed
    by_number same_text
decode_run = refl

-- None in a field that is not optional.
encode_none :
    encode point (obj 0 (cons null (cons null (cons (list nil) (cons (list nil) nil)))))
    ≡ err encode_error
unfolding encode
encode_none = refl

-- 2 ^ 53 + 1 lies halfway between two floats, and the even one is taken.
double_half : double_of (pos (2 ^ 53 + 1)) ≡ ok 0x4340000000000000
unfolding double_of
double_half = refl

double_negative : double_of (negsuc 1) ≡ ok 0xc000000000000000
unfolding double_of
double_negative = refl

leaf_run :
    encode_leaf 7 (scalar Kind.bytes 64) (Value.bytes (1 ∷ 2 ∷ [])) ≡ ok (58 ∷ 2 ∷ 1 ∷ 2 ∷ [])
unfolding encode_leaf encode_tag encode_varint and_mask64 encode_bytes
leaf_run = refl

decode-encode_leaf_example :
    ReadsBack
      (λ c buf. err encode_error)
      point
      7
      (scalar Kind.bytes 64)
      (Value.bytes (1 ∷ 2 ∷ []))
      (58 ∷ 2 ∷ 1 ∷ 2 ∷ [])
      (9 ∷ [])
decode-encode_leaf_example =
    decode-encode_leaf (λ c buf. err encode_error) point 7 (9 ∷ []) (omega arith) (omega arith)
      (scalar Kind.bytes 64) (Value.bytes (1 ∷ 2 ∷ [])) (58 ∷ 2 ∷ 1 ∷ 2 ∷ [])
      (IsPlain.a_bytes 64 (1 ∷ 2 ∷ [])) leaf_run (omega arith)

decode_data-Reads_example : Reads (decode_data point 0 point_bytes)
decode_data-Reads_example = decode_data-Reads point 0 point_bytes

abbrev no_nested : ℕ → Bytes → Result Value
no_nested c buf = err encode_error

single_run :
    decode_single no_nested point (scalar Kind.int 64) (5 ∷ 9 ∷ []) 0
    ≡ ok (Value.int (pos 5), 9 ∷ [])
unfolding decode_single decode_varint to_signed64
single_run = refl

skip_field-decode_single_example : skip_field (5 ∷ 9 ∷ []) 0 ≡ ok (9 ∷ [])
skip_field-decode_single_example =
    skip_field-decode_single no_nested point (scalar Kind.int 64) (5 ∷ 9 ∷ []) 0 (Value.int (pos 5))
      (9 ∷ []) single_run

no_seven : by_number (point.fields_of 0) 7 ≡ none
unfolding by_number
no_seven = refl

decode_loop-unknown_example :
    decode_loop no_nested point 20 (point.fields_of 0) ((58 ∷ 2 ∷ 1 ∷ 2 ∷ []) ++ point_bytes) []
    ≡ decode_loop no_nested point 19 (point.fields_of 0) point_bytes []
decode_loop-unknown_example =
    decode_loop-unknown no_nested point 19 7 (point.fields_of 0) (scalar Kind.bytes 64)
      (Value.bytes (1 ∷ 2 ∷ [])) (58 ∷ 2 ∷ 1 ∷ 2 ∷ []) point_bytes [] no_seven
      (IsPlain.a_bytes 64 (1 ∷ 2 ∷ [])) leaf_run (omega arith) (omega arith) (omega arith)
