-- ===== src/Text/Strict.antt =====
-- The bytes that are accepted as UTF-8, and overlong forms.
use grapec.Base.{
  ℕ, zero, suc, ◌+◌, ◌-◌, ◌*◌, ◌%◌, ◌<◌, ◌≤◌, ◌≡◌, sym, ap, ◌∙◌, List, [], ◌∷◌, ◌++◌, ◌==◌,
  if◌then◌else◌, length, some, arith, Option-cases, inl, inr,
}
use grapec.Errors.{ok, ◌>>=◌, >>=-eq-ok}
use native.Mathlib.Decide.{dec_lt}
use grapec.Text.{
  Str, encode_char, encode, tail_one, tail_two, tail_three, front, decode_loop, decode,
  replace_loop, decode_replace,
}

-- The bytes that the reader took are the encoding of the character.
abbrev Took : ℕ → List ℕ → ℕ → List ℕ → Type 0
Took b bs c rest = (head : List ℕ) × (encode_char c ≡ ok head) × (b ∷ bs ≡ head ++ rest)

-- A byte from `lo` up to but not `hi`.
abbrev Within : ℕ → ℕ → ℕ → Type 0
Within lo hi x = (lo ≤ x) × (x < hi)

tail_one_inv :
    (lo hi acc c : ℕ) (bs rest : List ℕ)
    → tail_one lo hi acc bs ≡ (some c, rest)
    → (x : ℕ) × (bs ≡ x ∷ rest) × Within lo hi x × (c ≡ acc * 64 + x % 64)
unfolding tail_one
tail_one_inv lo hi acc c [] rest e = absurd (ground arith)
tail_one_inv lo hi acc c (x ∷ bs) rest e = (x, ground arith, ground arith, ground arith)

tail_two_inv :
    (lo hi acc c : ℕ) (bs rest : List ℕ)
    → tail_two lo hi acc bs ≡ (some c, rest)
    → (x : ℕ) × (y : ℕ) × (bs ≡ x ∷ y ∷ rest)
      × Within lo hi x
      × Within 0x80 0xc0 y
      × (c ≡ (acc * 64 + x % 64) * 64 + y % 64)
unfolding tail_two
tail_two_inv lo hi acc c [] rest e = absurd (ground arith)
tail_two_inv lo hi acc c (x ∷ bs) rest e =
    let (y, eb, wy, ec) = tail_one_inv 0x80 0xc0 (acc * 64 + x % 64) c bs rest (ground arith) in
    (x, y, ap (λ t. x ∷ t) eb, ground arith, wy, ec)

tail_three_inv :
    (lo hi acc c : ℕ) (bs rest : List ℕ)
    → tail_three lo hi acc bs ≡ (some c, rest)
    → (x : ℕ) × (y : ℕ) × (z : ℕ) × (bs ≡ x ∷ y ∷ z ∷ rest)
      × Within lo hi x
      × Within 0x80 0xc0 y
      × Within 0x80 0xc0 z
      × (c ≡ ((acc * 64 + x % 64) * 64 + y % 64) * 64 + z % 64)
unfolding tail_three
tail_three_inv lo hi acc c [] rest e = absurd (ground arith)
tail_three_inv lo hi acc c (x ∷ bs) rest e =
    let (y, z, eb, wy, wz, ec) =
      tail_two_inv 0x80 0xc0 (acc * 64 + x % 64) c bs rest (ground arith) in
    (x, y, z, ap (λ t. x ∷ t) eb, ground arith, wy, wz, ec)

-- The encoder on a number that is put together from such bytes.
encode_two :
    (b x : ℕ)
    → Within 0xc2 0xe0 b
    → Within 0x80 0xc0 x
    → encode_char ((b - 0xc0) * 64 + x % 64) ≡ ok (b ∷ x ∷ [])
unfolding encode_char
encode_two b x wb wx = ground arith

encode_three :
    (b x y : ℕ)
    → Within 0xe0 0xf0 b
    → Within (if b == 0xe0 then 0xa0 else 0x80) (if b == 0xed then 0xa0 else 0xc0) x
    → Within 0x80 0xc0 y
    → encode_char (((b - 0xe0) * 64 + x % 64) * 64 + y % 64) ≡ ok (b ∷ x ∷ y ∷ [])
unfolding encode_char
encode_three b x y wb wx wy = ground arith

encode_four :
    (b x y z : ℕ)
    → Within 0xf0 0xf5 b
    → Within (if b == 0xf0 then 0x90 else 0x80) (if b == 0xf4 then 0x90 else 0xc0) x
    → Within 0x80 0xc0 y
    → Within 0x80 0xc0 z
    → encode_char ((((b - 0xf0) * 64 + x % 64) * 64 + y % 64) * 64 + z % 64)
      ≡ ok (b ∷ x ∷ y ∷ z ∷ [])
unfolding encode_char
encode_four b x y z wb wx wy wz = ground arith

-- Which continuation the first byte asks for.
front_two :
    (b : ℕ) (bs : List ℕ) → 0xc2 ≤ b → b < 0xe0 → front b bs ≡ tail_one 0x80 0xc0 (b - 0xc0) bs
unfolding front
front_two b bs l h = ground arith

front_three :
    (b : ℕ) (bs : List ℕ)
    → 0xe0 ≤ b
    → b < 0xf0
    → front b bs
      ≡ tail_two (if b == 0xe0 then 0xa0 else 0x80) (if b == 0xed then 0xa0 else 0xc0) (b - 0xe0) bs
unfolding front
front_three b bs l h = ground arith

front_four :
    (b : ℕ) (bs : List ℕ)
    → 0xf0 ≤ b
    → b < 0xf5
    → front b bs
      ≡ tail_three
          (if b == 0xf0 then 0x90 else 0x80)
          (if b == 0xf4 then 0x90 else 0xc0)
          (b - 0xf0)
          bs
unfolding front
front_four b bs l h = ground arith

Took-one : (b c : ℕ) (bs rest : List ℕ) → b < 0x80 → front b bs ≡ (some c, rest) → Took b bs c rest
unfolding front encode_char
Took-one b c bs rest h e = (b ∷ [], ground arith, ground arith)

Took-two :
    (b c : ℕ) (bs rest : List ℕ)
    → 0x80 ≤ b
    → b < 0xe0
    → front b bs ≡ (some c, rest)
    → Took b bs c rest
unfolding front
Took-two b c bs rest l h e = elim (dec_lt b 0xc2) [
  | yes low ↦ absurd (ground arith)
  | no n ↦
      let (x, eb, wx, ec) =
        tail_one_inv 0x80 0xc0 (b - 0xc0) c bs rest (sym (front_two b bs (omega arith) h) ∙ e) in
      (b ∷ x ∷ [], ap encode_char ec ∙ encode_two b x (omega arith, h) wx, ap (λ t. b ∷ t) eb)
]

Took-three :
    (b c : ℕ) (bs rest : List ℕ)
    → 0xe0 ≤ b
    → b < 0xf0
    → front b bs ≡ (some c, rest)
    → Took b bs c rest
Took-three b c bs rest l h e =
    let (x, y, eb, wx, wy, ec) =
      tail_two_inv (if b == 0xe0 then 0xa0 else 0x80) (if b == 0xed then 0xa0 else 0xc0) (b - 0xe0)
        c bs rest (sym (front_three b bs l h) ∙ e) in
    (b ∷ x ∷ y ∷ [], ap encode_char ec ∙ encode_three b x y (l, h) wx wy, ap (λ t. b ∷ t) eb)

Took-four : (b c : ℕ) (bs rest : List ℕ) → 0xf0 ≤ b → front b bs ≡ (some c, rest) → Took b bs c rest
unfolding front
Took-four b c bs rest l e = elim (dec_lt b 0xf5) [
  | yes h ↦
      let (x, y, z, eb, wx, wy, wz, ec) =
        tail_three_inv (if b == 0xf0 then 0x90 else 0x80) (if b == 0xf4 then 0x90 else 0xc0)
          (b - 0xf0) c bs rest (sym (front_four b bs l h) ∙ e) in
      (
        b ∷ x ∷ y ∷ z ∷ [],
        ap encode_char ec ∙ encode_four b x y z (l, h) wx wy wz,
        ap (λ t. b ∷ t) eb,
      )
  | no n ↦ absurd (ground arith)
]

took : (b c : ℕ) (bs rest : List ℕ) → front b bs ≡ (some c, rest) → Took b bs c rest
took b c bs rest e = elim (dec_lt b 0x80) [
  | yes h1 ↦ Took-one b c bs rest h1 e
  | no n1 ↦ elim (dec_lt b 0xe0) [
    | yes h2 ↦ Took-two b c bs rest (omega arith) h2 e
    | no n2 ↦ elim (dec_lt b 0xf0) [
      | yes h3 ↦ Took-three b c bs rest (omega arith) h3 e
      | no n3 ↦ Took-four b c bs rest (omega arith) e
    ]
  ]
]

-- One round of the reader.
loop_inv :
    (fuel b : ℕ) (bs : List ℕ) (s : Str)
    → decode_loop (suc fuel) (b ∷ bs) ≡ ok s
    → (c : ℕ) × (rest : List ℕ) × (cs : Str) × (front b bs ≡ (some c, rest))
      × (decode_loop fuel rest ≡ ok cs)
      × (s ≡ c ∷ cs)
loop_inv fuel b bs s e = elim (Option-cases (front b bs).0) [
  | inl bad ↦ absurd (unfold decode_loop in ground arith)
  | inr (c, good) ↦
      let rest : List ℕ = (front b bs).1 in
      let whole : front b bs ≡ (some c, rest) = ap (λ t. (t, rest)) good in
      let run : (decode_loop fuel rest >>= λ cs. ok (c ∷ cs)) ≡ ok s =
        unfold decode_loop in ground arith in
      let (cs, read, done) = >>=-eq-ok (decode_loop fuel rest) (λ cs. ok (c ∷ cs)) run in
      (c, rest, cs, whole, read, cc)
]

encode-decode_loop :
    (fuel : ℕ) (bytes : List ℕ) (s : Str) → decode_loop fuel bytes ≡ ok s → encode s ≡ ok bytes
encode-decode_loop zero [] s e = unfold decode_loop encode in ground arith
encode-decode_loop (suc fuel) [] s e = unfold decode_loop encode in ground arith
encode-decode_loop zero (b ∷ bs) s e = absurd (unfold decode_loop in ground arith)
encode-decode_loop (suc fuel) (b ∷ bs) s e =
    let (c, rest, cs, whole, read, es) = loop_inv fuel b bs s e in
    let (head, eh, split) = took b c bs rest whole in
    rw (es, split) (joined head c cs rest eh (encode-decode_loop fuel rest cs read))
  where
    joined :
        (head : List ℕ) (c : ℕ) (cs : Str) (rest : List ℕ)
        → encode_char c ≡ ok head
        → encode cs ≡ ok rest
        → encode (c ∷ cs) ≡ ok (head ++ rest)
    joined head c cs rest eh et = unfold encode in rw (eh, et)

replace_loop_lem :
    (fuel : ℕ) (bytes : List ℕ) (s : Str)
    → decode_loop fuel bytes ≡ ok s
    → replace_loop fuel bytes ≡ s
replace_loop_lem zero [] s e = unfold decode_loop replace_loop in ground arith
replace_loop_lem (suc fuel) [] s e = unfold decode_loop replace_loop in ground arith
replace_loop_lem zero (b ∷ bs) s e = absurd (unfold decode_loop in ground arith)
replace_loop_lem (suc fuel) (b ∷ bs) s e =
    let (c, rest, cs, whole, read, es) = loop_inv fuel b bs s e in
    round whole (replace_loop_lem fuel rest cs read) ∙ sym es
  where
    round :
        {c : ℕ} {rest : List ℕ} {cs : Str}
        → front b bs ≡ (some c, rest)
        → replace_loop fuel rest ≡ cs
        → replace_loop (suc fuel) (b ∷ bs) ≡ c ∷ cs
    round whole ih = unfold replace_loop in ground arith

-- Where strict decoding succeeds, decoding with replacements gives the same text.
pub decode_replace-decode :
    (bytes : List ℕ) (s : Str) → decode bytes ≡ ok s → decode_replace bytes ≡ s
unfolding decode decode_replace
decode_replace-decode bytes s e = replace_loop_lem (length bytes) bytes s e

-- Whatever bytes are accepted, they are the encoding of the text that is read: there is one
-- encoding of each text.
pub encode-decode : (bytes : List ℕ) (s : Str) → decode bytes ≡ ok s → encode s ≡ ok bytes
unfolding decode
encode-decode bytes s e = encode-decode_loop (length bytes) bytes s e
