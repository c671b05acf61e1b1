-- ===== src/Protobuf/Moments.antt =====
-- Timestamps and durations in protobuf.py: messages of seconds and nanoseconds. A datetime is its
-- distance from the epoch and a timedelta its length, in microseconds.
pub mod RoundTrip
pub mod Total
mod Examples
use grapec.Base.{
  ℕ, zero, suc, ◌+◌, ◌-◌, ◌*◌, ◌/◌, ◌%◌, Bool, ◌&&◌, List, [], ◌∷◌, ◌++◌, ◌==◌, if◌then◌else◌,
  length,
}
use grapec.Base.Int.{
  ℤ, pos, negsuc, eqb_ℤ, leb_ℤ, ltb_ℤ, abs, neg, times, ◌+ℤ◌, floor_div, floor_mod,
}
use grapec.Errors.{Result, ok, err, ◌>>=◌, no_fuel, overflow_error}
use grapec.Wire.{
  Bytes, encode_varint, decode_varint, to_signed64, encode_tag, decode_tag, skip_field, varint,
}

-- One of the two numbers of the message, left out when it is zero.
pub encode_part : ℕ → ℤ → Bytes
encode_part number value =
    if eqb_ℤ value (pos 0) then [] else encode_tag number varint ++ encode_varint value

pub encode_seconds_nanos : ℤ → ℤ → Bytes
unfolding encode_part
encode_seconds_nanos seconds nanos = encode_part 1 seconds ++ encode_part 2 nanos

-- A timedelta's days and seconds are the seconds rounded down.
pub encode_timestamp : ℤ → Bytes
encode_timestamp us =
    encode_seconds_nanos (floor_div us 1000000) (pos (floor_mod us 1000000 * 1000))

pub duration_parts : ℤ → ℤ × ℤ
duration_parts us =
    let seconds = abs us / 1000000 in
    let nanos = abs us % 1000000 * 1000 in
    if ltb_ℤ us (pos 0) then (neg (pos seconds), neg (pos nanos)) else (pos seconds, pos nanos)

pub encode_duration : ℤ → Bytes
unfolding duration_parts
encode_duration us = let (seconds, nanos) = duration_parts us in encode_seconds_nanos seconds nanos

-- The loop of `_decode_seconds_nanos`; each round takes a byte at least.
pub decode_parts : ℕ → Bytes → ℤ → ℤ → Result (ℤ × ℤ)
decode_parts fuel [] seconds nanos = ok (seconds, nanos)
decode_parts zero (b ∷ bs) seconds nanos = err no_fuel
decode_parts (suc fuel) (b ∷ bs) seconds nanos = do
  (num, wt, buf) ← decode_tag (b ∷ bs)
  let as_seconds = (do
    (raw, rest) ← decode_varint buf
    decode_parts fuel rest (to_signed64 raw) nanos)
  let as_nanos = (do
    (raw, rest) ← decode_varint buf
    decode_parts fuel rest seconds (to_signed64 raw))
  let skipped = (do rest ← skip_field buf wt; decode_parts fuel rest seconds nanos)
  if num == 1 && wt == varint
      then as_seconds
      else if num == 2 && wt == varint
      then as_nanos
      else skipped

pub decode_seconds_nanos : Bytes → Result (ℤ × ℤ)
unfolding decode_parts
decode_seconds_nanos buf = decode_parts (length buf) buf (pos 0) (pos 0)

-- From year 1 to year 9999, and up to 999999999 days either way: what Python's types can hold.
abbrev pub is_datetime : ℤ → Bool
is_datetime us = leb_ℤ (negsuc (62135596800000000 - 1)) us && ltb_ℤ us (pos 253402300800000000)

abbrev pub is_timedelta : ℤ → Bool
is_timedelta us =
    leb_ℤ (negsuc (86399999913600000000 - 1)) us && ltb_ℤ us (pos 86400000000000000000)

abbrev pub microseconds : ℤ → ℤ → ℤ
microseconds seconds nanos = times seconds 1000000 +ℤ floor_div nanos 1000

-- `epoch + timedelta(seconds=…, microseconds=nanos // 1000)`
unfoldable pub decode_timestamp : Bytes → Result ℤ
decode_timestamp raw = do
  (seconds, nanos) ← decode_seconds_nanos raw
  let us = microseconds seconds nanos
  if is_datetime us then ok us else err overflow_error

unfoldable pub decode_duration : Bytes → Result ℤ
decode_duration raw = do
  (seconds, nanos) ← decode_seconds_nanos raw
  let us = microseconds seconds nanos
  if is_timedelta us then ok us else err overflow_error
