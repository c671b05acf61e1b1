-- ===== src/Protobuf/Moments/RoundTrip.antt =====
-- Timestamps and durations of protobuf.py, written and read.
use grapec.Base.{
  ℕ, suc, ◌-◌, ◌*◌, ◌<◌, ◌≤◌, ◌≡◌, refl, sym, ap, ◌∙◌, true, [], ◌∷◌, ◌++◌, append_assoc,
  append-nil, length, arith, Bool-cases, inl, inr,
}
use grapec.Base.Int.{ℤ, pos, negsuc, eqb_ℤ, floor_div, floor_mod, eqb_ℤ→eq}
use grapec.Errors.{ok}
use grapec.Protobuf.Moments.{
  encode_part, encode_seconds_nanos, encode_timestamp, duration_parts, encode_duration,
  decode_parts, decode_seconds_nanos, is_datetime, is_timedelta, microseconds, decode_timestamp,
  decode_duration,
}
use grapec.Wire.{
  Bytes, encode_varint, decode_varint, and_mask64, to_signed64, encode_tag, decode_tag, varint,
}
use grapec.Wire.Fields.{decode_tag-encode_tag}
use grapec.Wire.Progress.{decode_tag_takes, decode_varint_takes}
use grapec.Wire.Varint.{decode_varint-encode_varint, to_signed64-and_mask64, IsInt64}

no_tag : (r : ℕ × ℕ × Bytes) → decode_tag [] ≡ ok r → ⊥
no_tag (number, wire_type, rest) e =
    let (a, b, c, shorter) = decode_tag_takes [] number wire_type rest e in elim shorter [ ]

-- A round on seconds, and one on nanoseconds.
first_round :
    (fuel : ℕ) (buf after rest : Bytes) (v : ℕ) (seconds nanos : ℤ)
    → decode_tag buf ≡ ok (1, varint, after)
    → decode_varint after ≡ ok (v, rest)
    → decode_parts (suc fuel) buf seconds nanos ≡ decode_parts fuel rest (to_signed64 v) nanos
unfolding decode_parts
first_round fuel [] after rest v seconds nanos et ev = absurd (no_tag _ et)
first_round fuel (b ∷ bs) after rest v seconds nanos et ev = rw (et, ev) refl

second_round :
    (fuel : ℕ) (buf after rest : Bytes) (v : ℕ) (seconds nanos : ℤ)
    → decode_tag buf ≡ ok (2, varint, after)
    → decode_varint after ≡ ok (v, rest)
    → decode_parts (suc fuel) buf seconds nanos ≡ decode_parts fuel rest seconds (to_signed64 v)
unfolding decode_parts
second_round fuel [] after rest v seconds nanos et ev = absurd (no_tag _ et)
second_round fuel (b ∷ bs) after rest v seconds nanos et ev = rw (et, ev) refl

part_reads :
    (number : ℕ) (z : ℤ) (rest : Bytes)
    → 0 < number
    → number < 3
    → let after = encode_varint z ++ rest in
      let buf = (encode_tag number varint ++ encode_varint z) ++ rest in
      (decode_tag buf ≡ ok (number, varint, after))
      × (decode_varint after ≡ ok (and_mask64 z, rest))
      × (length rest < length buf)
part_reads number z rest h0 h1 =
    let after : Bytes = encode_varint z ++ rest in
    let buf : Bytes = (encode_tag number varint ++ encode_varint z) ++ rest in
    let tag : decode_tag buf ≡ ok (number, varint, after) =
      rw (append_assoc (encode_tag number varint) (encode_varint z) rest)
        (decode_tag-encode_tag number varint after h0 (omega arith) (omega arith)) in
    let value : decode_varint after ≡ ok (and_mask64 z, rest) =
      decode_varint-encode_varint z rest in
    let (a, b, c, shorter) = decode_tag_takes buf number varint after tag in
    let (d, shorter', f) = decode_varint_takes after (and_mask64 z) rest value in
    (tag, value, omega arith)

-- What the loop makes of seconds that were written, with enough fuel for what follows.
seconds_lem :
    (fuel : ℕ) (z nanos : ℤ) (rest : Bytes)
    → IsInt64 z
    → length (encode_part 1 z ++ rest) ≤ fuel
    → (k : ℕ) × (length rest ≤ k)
      × (decode_parts fuel (encode_part 1 z ++ rest) (pos 0) nanos ≡ decode_parts k rest z nanos)
unfolding encode_part
seconds_lem fuel z nanos rest h l = elim (Bool-cases (eqb_ℤ z (pos 0))) [
  | inl zero_one ↦
      let none : z ≡ pos 0 = eqb_ℤ→eq z (pos 0) zero_one in
      (fuel, rw zero_one at l, rw (zero_one, none) refl)
  | inr more ↦
      let (tag, value, shorter) = part_reads 1 z rest (omega arith) (omega arith) in
      let enough = rw more at l in
      let one_less : fuel ≡ suc (fuel - 1) = omega arith in
      (
        fuel - 1,
        omega arith,
        rw more (
            ap
              (λ t. decode_parts t ((encode_tag 1 varint ++ encode_varint z) ++ rest) (pos 0) nanos)
              one_less
            ∙ first_round (fuel - 1) _ _ rest _ (pos 0) nanos tag value
            ∙ ap (λ t. decode_parts (fuel - 1) rest t nanos) (to_signed64-and_mask64 z h)),
      )
]

nanos_lem :
    (fuel : ℕ) (seconds z : ℤ) (rest : Bytes)
    → IsInt64 z
    → length (encode_part 2 z ++ rest) ≤ fuel
    → (k : ℕ) × (length rest ≤ k)
      × (decode_parts fuel (encode_part 2 z ++ rest) seconds (pos 0)
          ≡ decode_parts k rest seconds z)
unfolding encode_part
nanos_lem fuel seconds z rest h l = elim (Bool-cases (eqb_ℤ z (pos 0))) [
  | inl zero_one ↦
      let none : z ≡ pos 0 = eqb_ℤ→eq z (pos 0) zero_one in
      (fuel, rw zero_one at l, rw (zero_one, none) refl)
  | inr more ↦
      let (tag, value, shorter) = part_reads 2 z rest (omega arith) (omega arith) in
      let enough = rw more at l in
      let one_less : fuel ≡ suc (fuel - 1) = omega arith in
      (
        fuel - 1,
        omega arith,
        rw more (
            ap
              (λ t.
                decode_parts t ((encode_tag 2 varint ++ encode_varint z) ++ rest) seconds (pos 0))
              one_less
            ∙ second_round (fuel - 1) _ _ rest _ seconds (pos 0) tag value
            ∙ ap (λ t. decode_parts (fuel - 1) rest seconds t) (to_signed64-and_mask64 z h)),
      )
]

-- Seconds and nanoseconds of 64 bits each are read back as they were written, where a zero is left
-- out.
pub decode-encode_seconds_nanos :
    (seconds nanos : ℤ)
    → IsInt64 seconds
    → IsInt64 nanos
    → decode_seconds_nanos (encode_seconds_nanos seconds nanos) ≡ ok (seconds, nanos)
unfolding decode_seconds_nanos encode_seconds_nanos
decode-encode_seconds_nanos seconds nanos hs hn =
    let buf : Bytes = encode_part 1 seconds ++ encode_part 2 nanos in
    let (k, enough, first) =
      seconds_lem (length buf) seconds (pos 0) (encode_part 2 nanos) hs (omega arith) in
    let (j, left, second) =
      nanos_lem k seconds nanos [] hn (rw (append-nil (encode_part 2 nanos)) enough) in
    first
    ∙ ap (λ t. decode_parts k t seconds (pos 0)) (sym (append-nil (encode_part 2 nanos)))
    ∙ second
    ∙ unfold decode_parts in refl

timestamp_value :
    (us : ℤ) → microseconds (floor_div us 1000000) (pos (floor_mod us 1000000 * 1000)) ≡ us
timestamp_value (pos n) = ground arith
timestamp_value (negsuc n) = ground arith

timestamp_fits :
    (us : ℤ)
    → is_datetime us ≡ true
    → IsInt64 (floor_div us 1000000) × IsInt64 (pos (floor_mod us 1000000 * 1000))
timestamp_fits (pos n) h = ground arith
timestamp_fits (negsuc n) h = ground arith

-- A datetime from year 1 to year 9999 is decoded from its encoding to the microsecond.
pub decode-encode_timestamp :
    (us : ℤ) → is_datetime us ≡ true → decode_timestamp (encode_timestamp us) ≡ ok us
unfolding decode_timestamp encode_timestamp
decode-encode_timestamp us h =
    let (hs, hn) = timestamp_fits us h in
    rw (decode-encode_seconds_nanos _ _ hs hn, timestamp_value us, h) refl

duration_value : (us : ℤ) → microseconds (duration_parts us).0 (duration_parts us).1 ≡ us
unfolding duration_parts
duration_value (pos n) = ground arith
duration_value (negsuc n) = ground arith

duration_fits :
    (us : ℤ)
    → is_timedelta us ≡ true
    → IsInt64 (duration_parts us).0 × IsInt64 (duration_parts us).1
unfolding duration_parts
duration_fits (pos n) h = ground arith
duration_fits (negsuc n) h = ground arith

-- A timedelta that Python can hold is decoded from its encoding to the microsecond, a negative one
-- included.
pub decode-encode_duration :
    (us : ℤ) → is_timedelta us ≡ true → decode_duration (encode_duration us) ≡ ok us
unfolding decode_duration encode_duration
decode-encode_duration us h =
    let (hs, hn) = duration_fits us h in
    rw (decode-encode_seconds_nanos _ _ hs hn, duration_value us, h) refl
