-- ===== src/Wire/Varint.antt =====
-- Varints of wire.py: `encode_varint`, `decode_varint` and `to_signed64`.
use grapec.Base.{
  ℕ, zero, suc, ◌+◌, ◌-◌, ◌*◌, ◌/◌, ◌%◌, ◌^◌, ◌<◌, ◌≤◌, arith, ◌≡◌, ap, ◌∙◌, ◌∷◌, ◌++◌,
}
use grapec.Base.Int.{ℤ, pos, negsuc, ◌≤ℤ◌, ◌<ℤ◌}
use grapec.Base.Bits.{bit_and_0x7f, bit_and_0x80, bit_or_0x80, bit_and_mask, bit_or_disjoint}
use grapec.Base.Order.{lt_wf}
use grapec.Errors.{ok}
use grapec.Wire.{
  Bytes, and_mask64, encode_loop, encode_varint, decode_loop, decode_varint, to_signed64,
  shift_shrinks,
}
use mathlib.Core.Logic.{dif_pos, dif_neg}
use mathlib.Core.WellFounded.{Acc}
use native.Mathlib.Bridge.{le_prop}
use native.Mathlib.Decide.{dec_lt}
use native.Mathlib.Nat.{div-add-mod}
use native.Mathlib.Numerals.{towards_suc}

-- One round of the reader: on a last byte, and on one with the top bit set.
last_byte :
    (v result shift : ℕ) (rest : Bytes)
    → v < 128
    → result < 2 ^ shift
    → decode_loop (v ∷ rest) result shift ≡ ok ((result + v * 2 ^ shift) % 2 ^ 64, rest)
unfolding decode_loop
last_byte v result shift rest hv hr = ground (
  arith,
  bit_and_0x7f v,
  bit_and_0x80 v,
  bit_or_disjoint shift result v hr,
  bit_and_mask 64 (result + v * 2 ^ shift),
)

inner_byte :
    (g result shift : ℕ) (rest : Bytes)
    → g < 128
    → result < 2 ^ shift
    → shift + 7 ≤ 63
    → decode_loop ((g + 128) ∷ rest) result shift
      ≡ decode_loop rest (result + g * 2 ^ shift) (shift + 7)
unfolding decode_loop
inner_byte g result shift rest hg hr hs =
    ground
      (arith, bit_and_0x7f (g + 128), bit_and_0x80 (g + 128), bit_or_disjoint shift result g hr)

pow_seven_more : (k : ℕ) → 2 ^ (k + 7) ≡ 128 * 2 ^ k
pow_seven_more k = simp towards_suc (omega arith)

-- The lowest group of `v` and the rest, both shifted by `k`.
low_and_rest : (v k : ℕ) → v * 2 ^ k ≡ v % 128 * 2 ^ k + v / 128 * 2 ^ (k + 7)
low_and_rest v k =
    omega (
      arith,
      ap (λ t. v / 128 * t) (pow_seven_more k),
      ap (λ (x : ℕ). x * 2 ^ k) (div-add-mod v 128),
    )

-- What is read so far stays below the next shift.
group_fits : (result g s : ℕ) → result < 2 ^ s → g < 128 → result + g * 2 ^ s < 2 ^ (s + 7)
group_fits result g s hr hg = rw (pow_seven_more s) (grind arith)

-- The reader takes up what the writer appends, `k` rounds before the last one it allows.
decode-encode_loop :
    (k v result shift : ℕ) (w : Acc ◌<◌ v) (rest : Bytes)
    → v < 128 ^ suc k
    → shift + 7 * k ≡ 63
    → result < 2 ^ shift
    → decode_loop (encode_loop v w ++ rest) result shift
      ≡ ok ((result + v * 2 ^ shift) % 2 ^ 64, rest)
unfolding encode_loop
decode-encode_loop zero v result shift (Acc.intro _ smaller) rest hv hs hr =
    ground (arith, bit_and_0x7f v, last_byte v result shift rest)
decode-encode_loop (suc k) v result shift (Acc.intro _ smaller) rest hv hs hr =
    elim (dec_lt 0 (v / 128)) [
      | yes more ↦
          rw (dif_pos _ le_prop more, bit_and_0x7f v, bit_or_0x80 (v % 128) (omega arith))
            (inner_byte (v % 128) result shift _ (omega arith) hr (omega arith)
              ∙ decode-encode_loop k (v / 128) (result + v % 128 * 2 ^ shift) (shift + 7)
                  (smaller (v / 2 ^ 7) (shift_shrinks v more)) rest (omega arith) (omega arith)
                  (group_fits result (v % 128) shift hr (omega arith))
              ∙ ap (λ t. ok (t % 2 ^ 64, rest)) (omega (arith, low_and_rest v shift)))
      | no done ↦
          rw (dif_neg _ done, bit_and_0x7f v) (ground (arith, last_byte v result shift rest))
    ]

-- The whole writer on a number below 2 ^ 64.
decode-encode_nat :
    (v : ℕ) (w : Acc ◌<◌ v) (rest : Bytes)
    → v < 2 ^ 64
    → decode_varint (encode_loop v w ++ rest) ≡ ok (v, rest)
unfolding decode_varint
decode-encode_nat v w rest h =
    decode-encode_loop 9 v 0 0 w rest (omega arith) (omega arith) (omega arith)
    ∙ ap (λ t. ok (t, rest)) (omega arith)

pub and_mask64-lt : (z : ℤ) → and_mask64 z < 2 ^ 64
unfolding and_mask64
and_mask64-lt (pos n) = rw (bit_and_mask 64 n) (omega arith)
and_mask64-lt (negsuc n) = omega arith

-- An integer of any size that is written as a varint is read back as its 64 lowest bits, with what
-- follows left over.
pub decode_varint-encode_varint :
    (z : ℤ) (rest : Bytes) → decode_varint (encode_varint z ++ rest) ≡ ok (and_mask64 z, rest)
unfolding encode_varint
decode_varint-encode_varint z rest =
    decode-encode_nat (and_mask64 z) (lt_wf.apply (and_mask64 z)) rest (and_mask64-lt z)

abbrev pub IsInt64 : ℤ → Type 0
IsInt64 z = (negsuc (2 ^ 63 - 1) ≤ℤ z) × (z <ℤ pos (2 ^ 63))

-- `to_signed64` gives back every signed 64-bit integer from its 64 lowest bits.
pub to_signed64-and_mask64 : (z : ℤ) → IsInt64 z → to_signed64 (and_mask64 z) ≡ z
unfolding to_signed64 and_mask64
to_signed64-and_mask64 (pos n) h = ground (arith, bit_and_mask 64 n)
to_signed64-and_mask64 (negsuc n) h = ground (arith, bit_and_mask 64 n)

pub and_mask64-small : (n : ℕ) → n < 2 ^ 64 → and_mask64 (pos n) ≡ n
unfolding and_mask64
and_mask64-small n h = omega (arith, bit_and_mask 64 n)
