-- ===== src/Wire/Examples.antt =====
-- Runs of wire.py, and instances of what is proved about it.
use grapec.Base.{◌+◌, ◌^◌, ◌<◌, ◌≤◌, ◌≡◌, refl, arith, [], ◌∷◌, ◌++◌, length}
use grapec.Base.Int.{pos, negsuc}
use grapec.Errors.{ok, err, wire_error, truncated_varint}
use grapec.Wire.{
  Bytes, encode_varint, decode_varint, and_mask64, to_signed64, encode_tag, decode_tag,
  encode_bytes, decode_bytes, encode_double, decode_double, skip_field, length_delimited, varint,
}
use grapec.Wire.Varint.{decode_varint-encode_varint, to_signed64-and_mask64}
use grapec.Wire.Fields.{
  decode_tag-encode_tag, decode_bytes-encode_bytes, decode_double-encode_double, skip_field-bytes,
}
use grapec.Wire.Skipping.{Skips, skip_field-Skips}
use grapec.Wire.Progress.{decode_varint_takes, decode_varint-Answers, skip_field_takes, Answers}

abbrev tail_bytes : Bytes
tail_bytes = 7 ∷ 9 ∷ []

-- 300, with two bytes of what follows.
abbrev three_hundred : Bytes
three_hundred = 0xac ∷ 0x02 ∷ 7 ∷ 9 ∷ []

encode_300 : encode_varint (pos 300) ++ tail_bytes ≡ three_hundred
unfolding encode_varint and_mask64
encode_300 = refl

decode_300 : decode_varint three_hundred ≡ ok (300, tail_bytes)
unfolding decode_varint
decode_300 = refl

decode_cut_off : decode_varint (0xac ∷ []) ≡ err (wire_error truncated_varint)
unfolding decode_varint
decode_cut_off = refl

skip_300 : skip_field three_hundred varint ≡ ok tail_bytes
unfolding skip_field decode_varint
skip_300 = refl

decode_varint-encode_varint_example :
    decode_varint (encode_varint (negsuc 0) ++ tail_bytes) ≡ ok (and_mask64 (negsuc 0), tail_bytes)
decode_varint-encode_varint_example = decode_varint-encode_varint (negsuc 0) tail_bytes

signed_run : to_signed64 (and_mask64 (negsuc 4)) ≡ negsuc 4
signed_run = to_signed64-and_mask64 (negsuc 4) (omega arith, omega arith)

decode_varint-Answers_example : Answers three_hundred 0 (decode_varint three_hundred)
decode_varint-Answers_example =
    decode_varint-Answers three_hundred
      (omega arith, (omega arith, (omega arith, (omega arith, tt))))

decode_varint_takes_run :
    (300 < 2 ^ 64)
    × (length tail_bytes < length three_hundred)
    × (length three_hundred ≤ length tail_bytes + 10)
decode_varint_takes_run = decode_varint_takes three_hundred 300 tail_bytes decode_300

tag_run :
    decode_tag (encode_tag 5 length_delimited ++ tail_bytes) ≡ ok (5, length_delimited, tail_bytes)
tag_run =
    decode_tag-encode_tag 5 length_delimited tail_bytes (omega arith) (omega arith) (omega arith)

bytes_run : decode_bytes (encode_bytes three_hundred ++ tail_bytes) ≡ ok (three_hundred, tail_bytes)
bytes_run = decode_bytes-encode_bytes three_hundred tail_bytes (omega arith)

double_run :
    decode_double (encode_double 0x3ff0000000000000 ++ tail_bytes)
    ≡ ok (0x3ff0000000000000, tail_bytes)
double_run = decode_double-encode_double 0x3ff0000000000000 tail_bytes (omega arith)

skip_field_bytes_run :
    skip_field (encode_bytes three_hundred ++ tail_bytes) length_delimited ≡ ok tail_bytes
skip_field_bytes_run = skip_field-bytes three_hundred tail_bytes (omega arith)

skip_field_takes_run : length tail_bytes < length three_hundred
skip_field_takes_run = skip_field_takes three_hundred varint tail_bytes skip_300

-- A length-delimited value of 3 bytes of which one is missing.
skip_field-Skips_example :
    Skips (3 ∷ 1 ∷ 2 ∷ []) length_delimited (skip_field (3 ∷ 1 ∷ 2 ∷ []) length_delimited)
skip_field-Skips_example = skip_field-Skips (3 ∷ 1 ∷ 2 ∷ []) length_delimited
