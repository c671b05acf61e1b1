-- ===== src/Text/RoundTrip.antt =====
-- UTF-8, written and read.
use grapec.Base.{
  ℕ, zero, suc, ◌+◌, ◌/◌, ◌%◌, ◌<◌, ◌≤◌, ◌≡◌, refl, ap, List, [], ◌∷◌, ◌++◌, length, length-append,
  some, arith, All, ◌⊎◌,
}
use grapec.Errors.{ok}
use native.Mathlib.Decide.{dec_lt}
use grapec.Text.{Str, encode_char, encode, front, decode_loop, decode}

-- A code point that has an encoding.
abbrev pub IsScalar : ℕ → Type 0
IsScalar c = (c < 0x110000) × (c < 0xd800 ⊎ 0xe000 ≤ c)

-- The reader at the bytes of one character, whatever follows.
abbrev Reads : List ℕ → ℕ → Type 0
Reads bytes c =
    (b : ℕ) × (bs : List ℕ) × (bytes ≡ b ∷ bs)
    × ((rest : List ℕ) → front b (bs ++ rest) ≡ (some c, rest))

one_byte : (c : ℕ) (rest : List ℕ) → c < 0x80 → front c rest ≡ (some c, rest)
unfolding front
one_byte c rest h = ground arith

two_bytes :
    (c : ℕ) (rest : List ℕ)
    → 0x80 ≤ c
    → c < 0x800
    → front (0xc0 + c / 64) ((0x80 + c % 64) ∷ rest) ≡ (some c, rest)
unfolding front
two_bytes c rest l h = ground arith

three_bytes :
    (c : ℕ) (rest : List ℕ)
    → 0x800 ≤ c
    → c < 0x10000
    → (c < 0xd800) ⊎ (0xe000 ≤ c)
    → front (0xe0 + c / 4096) ((0x80 + c / 64 % 64) ∷ (0x80 + c % 64) ∷ rest) ≡ (some c, rest)
unfolding front
three_bytes c rest l h r = ground arith

four_bytes :
    (c : ℕ) (rest : List ℕ)
    → 0x10000 ≤ c
    → c < 0x110000
    → front
        (0xf0 + c / 262144)
        ((0x80 + c / 4096 % 64) ∷ (0x80 + c / 64 % 64) ∷ (0x80 + c % 64) ∷ rest)
      ≡ (some c, rest)
unfolding front
four_bytes c rest l h = ground arith

module _ (c : ℕ) (top : c < 0x110000) (range : (c < 0xd800) ⊎ (0xe000 ≤ c)) where
  abbrev Encodes : Type 0
  Encodes = (bytes : List ℕ) × (encode_char c ≡ ok bytes) × Reads bytes c

  encode_short : c < 0x800 → Encodes
  unfolding encode_char
  encode_short h = elim (dec_lt c 0x80) [
    | yes h1 ↦ (c ∷ [], ground arith, (c, [], refl, λ rest. one_byte c rest h1))
    | no n1 ↦ (
      (0xc0 + c / 64) ∷ (0x80 + c % 64) ∷ [],
      ground arith,
      (0xc0 + c / 64, (0x80 + c % 64) ∷ [], refl, λ rest. two_bytes c rest (omega arith) h),
    )
  ]

  encode_long : 0x800 ≤ c → Encodes
  unfolding encode_char
  encode_long l = elim (dec_lt c 0x10000) [
    | yes h ↦ (
      (0xe0 + c / 4096) ∷ (0x80 + c / 64 % 64) ∷ (0x80 + c % 64) ∷ [],
      ground arith,
      (_, _, refl, λ rest. three_bytes c rest l h range),
    )
    | no n ↦ (
      (0xf0 + c / 262144) ∷ (0x80 + c / 4096 % 64) ∷ (0x80 + c / 64 % 64) ∷ (0x80 + c % 64) ∷ [],
      ground arith,
      (_, _, refl, λ rest. four_bytes c rest (omega arith) top),
    )
  ]

  encode_char-Reads : Encodes
  encode_char-Reads = elim (dec_lt c 0x800) [
    | yes h ↦ encode_short h
    | no n ↦ encode_long (omega arith)
  ]

abbrev pub IsText : Str → Type 0
IsText = All IsScalar

decode_loop_step :
    (fuel b c : ℕ) (bs rest : List ℕ) (cs : Str)
    → front b bs ≡ (some c, rest)
    → decode_loop fuel rest ≡ ok cs
    → decode_loop (suc fuel) (b ∷ bs) ≡ ok (c ∷ cs)
unfolding decode_loop
decode_loop_step fuel b c bs rest cs e h = ground arith

decode_loop-append :
    (fuel c : ℕ) (head tail : List ℕ) (cs : Str)
    → Reads head c
    → length (head ++ tail) ≤ fuel
    → ((f : ℕ) → length tail ≤ f → decode_loop f tail ≡ ok cs)
    → decode_loop fuel (head ++ tail) ≡ ok (c ∷ cs)
decode_loop-append zero c head tail cs (b, bs, e, reads) hf ih =
    absurd (omega (arith, length-append head tail, ap length e))
decode_loop-append (suc fuel) c head tail cs (b, bs, e, reads) hf ih = rw e (
    decode_loop_step fuel b c (bs ++ tail) tail cs (reads tail)
      (ih fuel (omega (arith, length-append head tail, ap length e))))

decode_loop-encode :
    (s : Str)
    → IsText s
    → (bytes : List ℕ) × (encode s ≡ ok bytes)
      × ((fuel : ℕ) → length bytes ≤ fuel → decode_loop fuel bytes ≡ ok s)
unfolding encode
decode_loop-encode [] h = ([], refl, λ fuel hf. unfold decode_loop in refl)
decode_loop-encode (c ∷ cs) ((top, range), h) =
    let (head, eh, reads) = encode_char-Reads c top range in
    let (tail, et, again) = decode_loop-encode cs h in
    (head ++ tail, rw (eh, et), λ fuel hf. decode_loop-append fuel c head tail cs reads hf again)

-- Text without lone surrogates can be encoded, and reading the bytes gives it back.
pub decode-encode :
    (s : Str) → IsText s → (bytes : List ℕ) × (encode s ≡ ok bytes) × (decode bytes ≡ ok s)
unfolding decode
decode-encode s h =
    let (bytes, e, again) = decode_loop-encode s h in (bytes, e, again (length bytes) (omega arith))
