-- ===== src/Protobuf/Moments/Examples.antt =====
-- Runs on timestamps and durations, and instances of what is proved about them.
use grapec.Base.{◌≡◌, refl, arith, [], ◌∷◌}
use grapec.Base.Int.{pos, negsuc}
use grapec.Errors.{ok}
use grapec.Protobuf.Moments.{
  encode_seconds_nanos, encode_timestamp, encode_duration, decode_seconds_nanos, decode_timestamp,
  decode_duration,
}
use grapec.Protobuf.Moments.RoundTrip.{
  decode-encode_seconds_nanos, decode-encode_timestamp, decode-encode_duration,
}
use grapec.Protobuf.Moments.Total.{decode_seconds_nanos-FailsOnWire}
use grapec.Wire.{Bytes}
use grapec.Wire.Faults.{FailsOnWire}

-- Three seconds and a half.
abbrev three_and_half : Bytes
three_and_half = 8 ∷ 3 ∷ 16 ∷ 0x80 ∷ 0xca ∷ 0xb5 ∷ 0xee ∷ 1 ∷ []

decode_encode_seconds_nanos_run :
    decode_seconds_nanos (encode_seconds_nanos (pos 3) (pos 500000000)) ≡ ok (pos 3, pos 500000000)
decode_encode_seconds_nanos_run =
    decode-encode_seconds_nanos (pos 3) (pos 500000000) (omega arith, omega arith)
      (omega arith, omega arith)

decode-encode_timestamp_example : decode_timestamp (encode_timestamp (negsuc 0)) ≡ ok (negsuc 0)
decode-encode_timestamp_example = decode-encode_timestamp (negsuc 0) refl

decode-encode_duration_example : decode_duration (encode_duration (negsuc 0)) ≡ ok (negsuc 0)
decode-encode_duration_example = decode-encode_duration (negsuc 0) refl

on_wire_run : FailsOnWire (decode_seconds_nanos three_and_half)
on_wire_run = decode_seconds_nanos-FailsOnWire three_and_half
