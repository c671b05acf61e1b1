-- ===== src/Text/Total.antt =====
-- Strict decoding of UTF-8 on any bytes.
use grapec.Base.{
  ℕ, zero, suc, ◌+◌, ◌-◌, ◌*◌, ◌%◌, ◌≤◌, List, [], ◌∷◌, ◌==◌, if◌then◌else◌, length, Option, none,
  some, arith,
}
use grapec.Errors.{Result, ok, err, ◌>>=◌, Error, unicode_error, FailsAs, FailsAs-bind}
use grapec.Text.{Str, tail_one, tail_two, tail_three, front, decode_loop, decode}

length-tail_one : (lo hi acc : ℕ) (bs : List ℕ) → length (tail_one lo hi acc bs).1 ≤ length bs
unfolding tail_one
length-tail_one lo hi acc [] = omega arith
length-tail_one lo hi acc (b ∷ bs) = ground arith

length-tail_two : (lo hi acc : ℕ) (bs : List ℕ) → length (tail_two lo hi acc bs).1 ≤ length bs
unfolding tail_two
length-tail_two lo hi acc [] = omega arith
length-tail_two lo hi acc (b ∷ bs) =
    ground (arith, length-tail_one 0x80 0xc0 (acc * 64 + b % 64) bs)

length-tail_three : (lo hi acc : ℕ) (bs : List ℕ) → length (tail_three lo hi acc bs).1 ≤ length bs
unfolding tail_three
length-tail_three lo hi acc [] = omega arith
length-tail_three lo hi acc (b ∷ bs) =
    ground (arith, length-tail_two 0x80 0xc0 (acc * 64 + b % 64) bs)

length-front : (b : ℕ) (bs : List ℕ) → length (front b bs).1 ≤ length bs
unfolding front
length-front b bs = ground (
  arith,
  length-tail_one 0x80 0xc0 (b - 0xc0) bs,
  length-tail_two (if b == 0xe0 then 0xa0 else 0x80) (if b == 0xed then 0xa0 else 0xc0) (b - 0xe0)
      bs,
  length-tail_three (if b == 0xf0 then 0x90 else 0x80) (if b == 0xf4 then 0x90 else 0xc0) (b - 0xf0)
      bs,
)

decode_loop-FailsAs :
    (P : Error → Type 0) (fuel : ℕ) (bs : List ℕ)
    → P unicode_error
    → length bs ≤ fuel
    → FailsAs P (decode_loop fuel bs)
unfolding decode_loop
decode_loop-FailsAs P fuel [] p h = tt
decode_loop-FailsAs P zero (b ∷ bs) p h = absurd (omega arith)
decode_loop-FailsAs P (suc fuel) (b ∷ bs) p h =
    round (front b bs).0
      (decode_loop-FailsAs P fuel (front b bs).1 p (omega (arith, length-front b bs)))
  where
    round :
        (char : Option ℕ)
        → FailsAs P (decode_loop fuel (front b bs).1)
        → FailsAs P (elim char as (λ t. Result Str) [
          | none ↦ err unicode_error
          | some c ↦ (decode_loop fuel (front b bs).1 >>= λ cs. ok (c ∷ cs))
        ])
    round none ih = p
    round (some c) ih =
        FailsAs-bind P (decode_loop fuel (front b bs).1) (λ cs. ok (c ∷ cs)) ih (λ cs e. tt)

-- The fuel that `decode` gives, the length of the bytes, is always enough.
pub decode-FailsAs : (P : Error → Type 0) (bs : List ℕ) → P unicode_error → FailsAs P (decode bs)
unfolding decode
decode-FailsAs P bs p = decode_loop-FailsAs P (length bs) bs p (omega arith)
