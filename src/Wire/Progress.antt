-- ===== src/Wire/Progress.antt =====
-- The readers of wire.py on any input: how far they move and what they answer.
use grapec.Base.{
  ℕ, suc, ◌+◌, ◌*◌, ◌^◌, ◌<◌, ◌≤◌, bit_and, bit_or, arith, ◌≡◌, refl, [], ◌∷◌, ltb, if◌then◌else◌,
  length, length-drop, drop, Bool-cases, ltb→lt, ◌⊎◌, inl, inr, All, true, false,
}
use grapec.Base.Bits.{bit_and_mask, bit_and_0x80}
use grapec.Errors.{ok, err, ◌>>=◌, >>=-eq-ok, wire_error, truncated_varint, varint_too_long}
use grapec.Wire.{
  Bytes, IsByte, Read, mask64, decode_loop, decode_varint, decode_tag, decode_double, decode_bytes,
  skip_field,
}

decode_loop_takes :
    (buf : Bytes) (result shift j v : ℕ) (rest : Bytes)
    → shift ≡ 7 * j
    → j ≤ 9
    → decode_loop buf result shift ≡ ok (v, rest)
    → (v < 2 ^ 64) × (length rest < length buf) × (length buf + j ≤ length rest + 10)
unfolding decode_loop
decode_loop_takes [] result shift j v rest hs hj e = cc
decode_loop_takes (b ∷ bs) result shift j v rest hs hj e = ground (
  arith,
  bit_and_mask 64 (bit_or result (bit_and b 0x7f * 2 ^ shift)),
  decode_loop_takes bs (bit_or result (bit_and b 0x7f * 2 ^ shift)) (shift + 7) (j + 1) v rest,
)

-- A varint that is accepted is below 2 ^ 64 and takes from 1 to 10 bytes.
pub decode_varint_takes :
    (buf : Bytes) (v : ℕ) (rest : Bytes)
    → decode_varint buf ≡ ok (v, rest)
    → (v < 2 ^ 64) × (length rest < length buf) × (length buf ≤ length rest + 10)
unfolding decode_varint
decode_varint_takes buf v rest e = ground (arith, decode_loop_takes buf 0 0 0 v rest)

pub decode_tag_takes :
    (buf : Bytes) (number wire_type : ℕ) (rest : Bytes)
    → decode_tag buf ≡ ok (number, wire_type, rest)
    → (0 < number) × (number < 2 ^ 61) × (wire_type < 8) × (length rest < length buf)
unfolding decode_tag
decode_tag_takes buf number wire_type rest e =
    let ((key, after), read, done) = >>=-eq-ok (decode_varint buf) _ e in
    ground (arith, decode_varint_takes buf key after read, bit_and_mask 3 key)

pub decode_bytes_takes :
    (buf value rest : Bytes) → decode_bytes buf ≡ ok (value, rest) → length rest < length buf
unfolding decode_bytes
decode_bytes_takes buf value rest e =
    let ((size, after), read, done) = >>=-eq-ok (decode_varint buf) _ e in
    ground (arith, decode_varint_takes buf size after read, length-drop size after)

varint_skip :
    (buf rest : Bytes) → (decode_varint buf >>= λ p. ok p.1) ≡ ok rest → length rest < length buf
varint_skip buf rest e =
    let ((v, after), read, done) = >>=-eq-ok (decode_varint buf) _ e in
    ground (arith, decode_varint_takes buf v after read)

bytes_skip :
    (buf rest : Bytes) → (decode_bytes buf >>= λ p. ok p.1) ≡ ok rest → length rest < length buf
bytes_skip buf rest e =
    let ((v, after), read, done) = >>=-eq-ok (decode_bytes buf) _ e in
    ground (arith, decode_bytes_takes buf v after read)

-- Skip_field, where it succeeds, takes at least a byte and never more than there are.
pub skip_field_takes :
    (buf : Bytes) (wire_type : ℕ) (rest : Bytes)
    → skip_field buf wire_type ≡ ok rest
    → length rest < length buf
unfolding skip_field
skip_field_takes buf wire_type rest e =
    ground (arith, varint_skip buf rest, bytes_skip buf rest, length-drop 8 buf, length-drop 4 buf)

-- How many bytes at the front have their top bit set.
abbrev pub leading : Bytes → ℕ
leading [] = 0
leading (b ∷ bs) = if ltb b 128 then 0 else suc (leading bs)

-- The answer to a buffer of which `j` bytes are already read.
abbrev pub Answers : Bytes → ℕ → Read ℕ → Type 0
Answers buf j r =
    (10 ≤ leading buf + j → r ≡ err (wire_error varint_too_long))
    × (leading buf + j < 10 → leading buf ≡ length buf → r ≡ err (wire_error truncated_varint))
    × (leading buf + j < 10
        → leading buf < length buf
        → (v : ℕ) × (r ≡ ok (v, drop (suc (leading buf)) buf)))

low_round :
    (b : ℕ) (bs : Bytes) (result shift : ℕ)
    → b < 128
    → (v : ℕ) × (decode_loop (b ∷ bs) result shift ≡ ok (v, bs))
unfolding decode_loop
low_round b bs result shift h =
    (bit_and (bit_or result (bit_and b 0x7f * 2 ^ shift)) mask64, ground (arith, bit_and_0x80 b))

high_round :
    (b : ℕ) (bs : Bytes) (result shift : ℕ)
    → b < 256
    → 128 ≤ b
    → decode_loop (b ∷ bs) result shift ≡ (
        if ltb 63 (shift + 7)
        then err (wire_error varint_too_long)
        else decode_loop bs (bit_or result (bit_and b 0x7f * 2 ^ shift)) (shift + 7))
unfolding decode_loop
high_round b bs result shift hb h = ground (arith, bit_and_0x80 b)

decode_loop-Answers :
    (buf : Bytes) (result shift j : ℕ)
    → All IsByte buf
    → shift ≡ 7 * j
    → j ≤ 9
    → Answers buf j (decode_loop buf result shift)
unfolding decode_loop
decode_loop-Answers [] result shift j hb hs hj =
    (λ h. absurd (omega arith), λ h e. refl, λ h l. absurd (omega arith))
decode_loop-Answers (b ∷ bs) result shift j hb hs hj = elim (Bool-cases (ltb b 128)) [
  | inl low ↦
      let (v, e) = low_round b bs result shift (ltb→lt b 128 low) in
      rw (low, e) (λ h. absurd (omega arith), λ h l. absurd (omega arith), λ h l. (v, refl))
  | inr high ↦
      rw (high, high_round b bs result shift hb.0 (ground arith))
        (later (Bool-cases (ltb 63 (shift + 7)))
          (λ h. decode_loop-Answers bs _ (shift + 7) (j + 1) hb.1 (omega arith) h))
]
  where
    later :
        {r : Read ℕ}
        → (ltb 63 (shift + 7) ≡ true) ⊎ (ltb 63 (shift + 7) ≡ false)
        → (j + 1 ≤ 9 → Answers bs (j + 1) r)
        → (10 ≤ suc (leading bs) + j
            → (if ltb 63 (shift + 7) then err (wire_error varint_too_long) else r)
              ≡ err (wire_error varint_too_long))
          × (suc (leading bs) + j < 10
              → suc (leading bs) ≡ suc (length bs)
              → (if ltb 63 (shift + 7) then err (wire_error varint_too_long) else r)
                ≡ err (wire_error truncated_varint))
          × (suc (leading bs) + j < 10
              → suc (leading bs) < suc (length bs)
              → (v : ℕ) × ((if ltb 63 (shift + 7) then err (wire_error varint_too_long) else r)
                  ≡ ok (v, drop (suc (leading bs)) bs)))
    later (inl last) next =
        rw last (λ h. refl, λ h l. absurd (ground arith), λ h l. absurd (ground arith))
    later (inr more) next =
        let (long, short, fine) = next (ground arith) in
        rw more (
          λ h. long (omega arith),
          λ h l. short (omega arith) (omega arith),
          λ h l. fine (omega arith) (omega arith),
        )

-- For any bytes, decode_varint answers as the bytes with their top bit set at the front tell: with
-- ten of them the varint is too long, with fewer and nothing behind them it is truncated, and else
-- it ends with the byte behind them.
pub decode_varint-Answers : (buf : Bytes) → All IsByte buf → Answers buf 0 (decode_varint buf)
unfolding decode_varint
decode_varint-Answers buf h = decode_loop-Answers buf 0 0 0 h (omega arith) (omega arith)

pub decode_double_takes :
    (buf : Bytes) (bits : ℕ) (rest : Bytes)
    → decode_double buf ≡ ok (bits, rest)
    → length rest < length buf
unfolding decode_double
decode_double_takes buf bits rest e = ground (arith, length-drop 8 buf)
