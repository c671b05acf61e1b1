-- ===== src/Wire/Skipping.antt =====
-- `skip_field` of wire.py and the bytes of a field's value.
use grapec.Base.{
  ℕ, ◌+◌, ◌*◌, ◌^◌, ◌==◌, bit_and, bit_or, arith, ◌≡◌, refl, sym, ap, ◌∙◌, [], ◌∷◌, ◌++◌, ltb,
  length, drop, take, Bool-cases, ◌⊎◌, inl, inr, append-nil, append_assoc, ◌≤◌, subst,
  length-append, length-take_le, take-append-drop, drop-append_self,
}
use grapec.Errors.{Result, ok, err, ◌>>=◌, >>=-eq-ok}
use grapec.Wire.{
  Bytes, Read, varint, fixed64, length_delimited, fixed32, decode_loop, decode_varint, decode_bytes,
  advance, skip_field,
}

-- What a varint is read from, and that the bytes behind it do not matter.
abbrev Reads : (Bytes → Read ℕ) → Bytes → ℕ → Bytes → Type 0
Reads read buf v rest =
    (front : Bytes) × (buf ≡ front ++ rest) × ((tail : Bytes) → read (front ++ tail) ≡ ok (v, tail))

decode_loop-Reads :
    (buf : Bytes) (result shift v : ℕ) (rest : Bytes)
    → decode_loop buf result shift ≡ ok (v, rest)
    → Reads (λ b. decode_loop b result shift) buf v rest
unfolding decode_loop
decode_loop-Reads [] result shift v rest e = cc
decode_loop-Reads (b ∷ bs) result shift v rest e = elim (Bool-cases (bit_and b 0x80 == 0)) [
  | inl last ↦ (b ∷ [], ground arith, λ tail. ground arith)
  | inr more ↦ elim (Bool-cases (ltb 63 (shift + 7))) [
    | inl long ↦ ground arith
    | inr short ↦
        let (front, split, reads) =
          decode_loop-Reads bs (bit_or result (bit_and b 0x7f * 2 ^ shift)) (shift + 7) v rest
            (ground arith) in
        (b ∷ front, ap (λ t. b ∷ t) split, λ tail. rw (more, short) (reads tail))
  ]
]

decode_varint-Reads :
    (buf : Bytes) (v : ℕ) (rest : Bytes)
    → decode_varint buf ≡ ok (v, rest)
    → Reads decode_varint buf v rest
unfolding decode_varint
decode_varint-Reads buf v rest e = decode_loop-Reads buf 0 0 v rest e

-- The bytes of one field's value: a varint, 8 or 4 bytes, or a varint and as many bytes as it says.
abbrev pub IsField : ℕ → Bytes → Type 0
IsField wire_type field =
    ((wire_type ≡ varint) × (v : ℕ) × (decode_varint field ≡ ok (v, [])))
    ⊎ ((wire_type ≡ fixed64) × (length field ≡ 8))
    ⊎ ((wire_type ≡ length_delimited)
        × (size : ℕ) × (body : Bytes) × (decode_varint field ≡ ok (size, body))
        × (length body ≡ size))
    ⊎ ((wire_type ≡ fixed32) × (length field ≡ 4))

-- The answer of a skip: it leaves what follows a field's value, and is an exception only if the
-- buffer starts with none.
abbrev pub Skips : Bytes → ℕ → Result Bytes → Type 0
Skips buf wire_type (ok rest) = (field : Bytes) × (buf ≡ field ++ rest) × IsField wire_type field
Skips buf wire_type (err e) =
    ¬ ((field : Bytes) × (rest : Bytes) × (buf ≡ field ++ rest) × IsField wire_type field)

wire_cases :
    (wire_type : ℕ)
    → (wire_type ≡ varint)
      ⊎ (wire_type ≡ fixed64)
      ⊎ (wire_type ≡ length_delimited)
      ⊎ (wire_type ≡ fixed32)
      ⊎ ((buf rest : Bytes) → ¬ (skip_field buf wire_type ≡ ok rest))
unfolding skip_field
wire_cases wire_type = elim (Bool-cases (wire_type == varint)) [
  | inl v ↦ inl (ground arith)
  | inr nv ↦ elim (Bool-cases (wire_type == fixed64)) [
    | inl f ↦ inr (inl (ground arith))
    | inr nf ↦ elim (Bool-cases (wire_type == length_delimited)) [
      | inl l ↦ inr (inr (inl (ground arith)))
      | inr nl ↦ elim (Bool-cases (wire_type == fixed32)) [
        | inl g ↦ inr (inr (inr (inl (ground arith))))
        | inr ng ↦ inr (inr (inr (inr (λ buf rest e. ground arith))))
      ]
    ]
  ]
]

advance-front :
    (size : ℕ) (buf rest : Bytes)
    → advance size buf ≡ ok rest
    → (field : Bytes) × (buf ≡ field ++ rest) × (length field ≡ size)
unfolding advance
advance-front size buf rest e =
    let fits : size ≤ length buf = ground arith in
    let left : drop size buf ≡ rest = ground arith in
    (
      take size buf,
      sym (take-append-drop size buf) ∙ ap (λ t. take size buf ++ t) left,
      length-take_le size buf fits,
    )

advance-append : (field rest : Bytes) → advance (length field) (field ++ rest) ≡ ok rest
unfolding advance
advance-append field rest = ground (arith, length-append field rest, drop-append_self field rest)

varint-front :
    (buf rest : Bytes)
    → (decode_varint buf >>= λ p. ok p.1) ≡ ok rest
    → (field : Bytes) × (buf ≡ field ++ rest) × (v : ℕ) × (decode_varint field ≡ ok (v, []))
varint-front buf rest e =
    let ((v, after), read, done) = >>=-eq-ok (decode_varint buf) _ e in
    let (front, split, reads) = decode_varint-Reads buf v after read in
    let same : after ≡ rest = cc in
    (
      front,
      split ∙ ap (λ t. front ++ t) same,
      v,
      subst (λ t. decode_varint t ≡ ok (v, [])) (append-nil front) (reads []),
    )

varint-append :
    (field rest : Bytes) (v : ℕ) (more : Bytes)
    → decode_varint field ≡ ok (v, more)
    → decode_varint (field ++ rest) ≡ ok (v, more ++ rest)
varint-append field rest v more e =
    let (front, split, reads) = decode_varint-Reads field v more e in
    ap (λ t. decode_varint (t ++ rest)) split
    ∙ ap decode_varint (append_assoc front more rest)
    ∙ reads (more ++ rest)

bytes-front :
    (buf rest : Bytes)
    → (decode_bytes buf >>= λ p. ok p.1) ≡ ok rest
    → (field : Bytes) × (buf ≡ field ++ rest)
      × (size : ℕ) × (body : Bytes) × (decode_varint field ≡ ok (size, body))
      × (length body ≡ size)
unfolding decode_bytes
bytes-front buf rest e =
    let ((value, end), read, done) = >>=-eq-ok (decode_bytes buf) _ e in
    let ((size, after), tag, cut) = >>=-eq-ok (decode_varint buf) _ read in
    let (front, split, reads) = decode_varint-Reads buf size after tag in
    let fits : size ≤ length after = ground arith in
    let left : drop size after ≡ rest = ground arith in
    (
      front ++ take size after,
      split
          ∙ ap (λ t. front ++ t)
              (sym (take-append-drop size after) ∙ ap (λ t. take size after ++ t) left)
          ∙ sym (append_assoc front (take size after) rest),
      size,
      take size after,
      reads (take size after),
      length-take_le size after fits,
    )

bytes-append :
    (field rest : Bytes) (body : Bytes)
    → decode_varint field ≡ ok (length body, body)
    → (decode_bytes (field ++ rest) >>= λ p. ok p.1) ≡ ok rest
unfolding decode_bytes
bytes-append field rest body e =
    rw (varint-append field rest (length body) body e)
      (ground (arith, length-append body rest, drop-append_self body rest))

skipped :
    (buf rest : Bytes) (wire_type : ℕ)
    → skip_field buf wire_type ≡ ok rest
    → Skips buf wire_type (ok rest)
unfolding skip_field
skipped buf rest wire_type e =
    let at : (n : ℕ) → wire_type ≡ n → skip_field buf n ≡ ok rest =
      λ n is. subst (λ t. skip_field buf t ≡ ok rest) is e in
    elim (wire_cases wire_type) [
      | inl is ↦
          let (field, split, v, reads) = varint-front buf rest (at varint is) in
          (field, split, inl (is, v, reads))
      | inr (inl is) ↦
          let (field, split, size) = advance-front 8 buf rest (at fixed64 is) in
          (field, split, inr (inl (is, size)))
      | inr (inr (inl is)) ↦
          let (field, split, size, body, reads, long) =
            bytes-front buf rest (at length_delimited is) in
          (field, split, inr (inr (inl (is, size, body, reads, long))))
      | inr (inr (inr (inl is))) ↦
          let (field, split, size) = advance-front 4 buf rest (at fixed32 is) in
          (field, split, inr (inr (inr (is, size))))
      | inr (inr (inr (inr never))) ↦ absurd (never buf rest e)
    ]

skips :
    (field rest : Bytes) (wire_type : ℕ)
    → IsField wire_type field
    → skip_field (field ++ rest) wire_type ≡ ok rest
unfolding skip_field
skips field rest wire_type (inl (is, v, reads)) = rw (is, varint-append field rest v [] reads) refl
skips field rest wire_type (inr (inl (is, size))) = rw (is, ← size) (advance-append field rest)
skips field rest wire_type (inr (inr (inl (is, size, body, reads, long)))) =
    rw is (bytes-append field rest body (rw long reads))
skips field rest wire_type (inr (inr (inr (is, size)))) =
    rw (is, ← size) (advance-append field rest)

-- Skip_field, on any bytes and wire type, either takes the value of a field exactly and leaves
-- what follows it, or raises, and then the bytes begin with no such value: a varint, eight bytes,
-- a varint and as many bytes as it says, or four bytes, as the wire type tells.
pub skip_field-Skips :
    (buf : Bytes) (wire_type : ℕ) → Skips buf wire_type (skip_field buf wire_type)
skip_field-Skips buf wire_type = go (skip_field buf wire_type) refl
  where
    go : (r : Result Bytes) → skip_field buf wire_type ≡ r → Skips buf wire_type r
    go (ok rest) e = skipped buf rest wire_type e
    go (err x) e = λ (field, rest, split, h).
        let same : skip_field buf wire_type ≡ ok rest =
          ap (λ b. skip_field b wire_type) split ∙ skips field rest wire_type h in
        cc
