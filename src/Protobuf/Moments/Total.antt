-- ===== src/Protobuf/Moments/Total.antt =====
-- The reader of seconds and nanoseconds on any bytes.
use grapec.Base.{ℕ, zero, suc, ◌≤◌, ◌<◌, arith, [], ◌∷◌, length}
use grapec.Base.Int.{ℤ, pos}
use grapec.Protobuf.Moments.{decode_parts, decode_seconds_nanos}
use grapec.Wire.{Bytes, decode_varint, to_signed64, decode_tag, skip_field}
use grapec.Wire.Faults.{
  FailsOnWire, FailsOnWire-bind, decode_varint-FailsOnWire, decode_tag-FailsOnWire,
  skip_field-FailsOnWire,
}
use grapec.Wire.Progress.{decode_varint_takes, decode_tag_takes, skip_field_takes}

decode_parts-FailsOnWire :
    (fuel : ℕ) (buf : Bytes) (seconds nanos : ℤ)
    → length buf ≤ fuel
    → FailsOnWire (decode_parts fuel buf seconds nanos)
unfolding decode_parts
decode_parts-FailsOnWire fuel [] seconds nanos h = tt
decode_parts-FailsOnWire zero (b ∷ bs) seconds nanos h = absurd (omega arith)
decode_parts-FailsOnWire (suc fuel) (b ∷ bs) seconds nanos h =
    FailsOnWire-bind (decode_tag (b ∷ bs)) _ (decode_tag-FailsOnWire (b ∷ bs)) λ (num, wt, buf) e.
      let (p, q, r, shorter) = decode_tag_takes (b ∷ bs) num wt buf e in
      let as_seconds =
        FailsOnWire-bind (decode_varint buf) (λ v. decode_parts fuel v.1 (to_signed64 v.0) nanos)
          (decode_varint-FailsOnWire buf)
          (λ (v, rest) ev.
            (let (i, less, k) = decode_varint_takes buf v rest ev in
              decode_parts-FailsOnWire fuel rest (to_signed64 v) nanos (omega arith))) in
      let as_nanos =
        FailsOnWire-bind (decode_varint buf) (λ v. decode_parts fuel v.1 seconds (to_signed64 v.0))
          (decode_varint-FailsOnWire buf)
          (λ (v, rest) ev.
            (let (i, less, k) = decode_varint_takes buf v rest ev in
              decode_parts-FailsOnWire fuel rest seconds (to_signed64 v) (omega arith))) in
      let skipped =
        FailsOnWire-bind (skip_field buf wt) (λ rest. decode_parts fuel rest seconds nanos)
          (skip_field-FailsOnWire buf wt)
          (λ rest er.
            (let less : length rest < length buf = skip_field_takes buf wt rest er in
              decode_parts-FailsOnWire fuel rest seconds nanos (omega arith))) in
      ground arith

-- Whatever the bytes are, reading seconds and nanoseconds ends and raises nothing but WireError.
pub decode_seconds_nanos-FailsOnWire : (buf : Bytes) → FailsOnWire (decode_seconds_nanos buf)
unfolding decode_seconds_nanos
decode_seconds_nanos-FailsOnWire buf =
    decode_parts-FailsOnWire (length buf) buf (pos 0) (pos 0) (omega arith)
