-- ===== src/Thrift/Protocol/Feed.antt =====
-- `ThriftProtocol.feed` of thrift.py on a reply that comes in pieces.
use grapec.Base.{
  ℕ, zero, suc, ◌+◌, ◌<◌, ◌≤◌, ◌≡◌, refl, sym, ap, subst, ◌∙◌, [], ◌∷◌, ◌++◌, append-nil, ltb,
  length, length-append, take, drop, take-append_self, drop-append_self, arith, Bool-cases, inl,
  inr,
}
use grapec.Errors.{ok}
use grapec.Struct.{unpack_unsigned}
use grapec.Text.{Str}
use grapec.Thrift.Message.{decode_message, max_frame}
use grapec.Thrift.Protocol.{Protocol, take_frame, accept}
use grapec.Wire.{Bytes}

-- A front of a list is a front of what it begins with.
take-of_front : (n : ℕ) (xs ys : Bytes) → n ≤ length xs → take n (xs ++ ys) ≡ take n xs
take-of_front zero xs ys h = refl
take-of_front (suc n) [] ys h = elim h [ ]
take-of_front (suc n) (x ∷ xs) ys h = ap (λ t. x ∷ t) (take-of_front n xs ys (omega arith))

module _ (method : Str) (number : ℕ) (size content : Bytes) (four : length size ≡ 4)
    (says : unpack_unsigned size ≡ length content) (fits : length content ≤ max_frame) where
  size_first : take 4 (size ++ content) ≡ size
  size_first = subst (λ n. take n (size ++ content) ≡ size) four (take-append_self size content)

  content_behind : drop 4 (size ++ content) ≡ content
  content_behind =
      subst (λ n. drop n (size ++ content) ≡ content) four (drop-append_self size content)

  size_read :
      (buf ahead : Bytes)
      → buf ++ ahead ≡ size ++ content
      → 4 ≤ length buf
      → unpack_unsigned (take 4 buf) ≡ length content
  size_read buf ahead e h =
      ap unpack_unsigned
        (sym (take-of_front 4 buf ahead h) ∙ ap (λ (t : Bytes). take 4 t) e ∙ size_first)
      ∙ says

  -- Too few bytes: they stay in the buffer.
  pub partial_frame :
      (p : Protocol) (ahead : Bytes)
      → p.inbuf ++ ahead ≡ size ++ content
      → 0 < length ahead
      → take_frame method number p ≡ (ok tt, p)
  unfolding take_frame
  partial_frame p ahead e h = elim (Bool-cases (ltb (length p.inbuf) 4)) [
    | inl short ↦ rw short
    | inr long ↦
        rw (long, size_read p.inbuf ahead e (ground arith))
          (ground (arith, ap length e, length-append p.inbuf ahead, length-append size content))
  ]

  whole_length : length (size ++ content) ≡ 4 + length content
  whole_length = omega (arith, length-append size content)

  all_taken : take (length content) content ≡ content
  all_taken = rw append-nil at (take-append_self content [])

  none_left : drop (length content) content ≡ []
  none_left = rw append-nil at (drop-append_self content [])

  -- All bytes: the message is decoded and checked, and the buffer is empty.
  pub whole_frame :
      (p : Protocol)
      → p.inbuf ≡ size ++ content
      → take_frame method number p
        ≡ accept method number (decode_message content) (record p { inbuf = [] })
  unfolding take_frame
  whole_frame p e =
      rw (e, size_first, says, content_behind, all_taken, none_left, whole_length) (ground arith)
