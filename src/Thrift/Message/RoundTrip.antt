-- ===== src/Thrift/Message/RoundTrip.antt =====
-- Messages of thrift.py, written and read.
use grapec.Base.{
  ℕ, ◌+◌, ◌/◌, ◌^◌, ◌<◌, ◌≡◌, refl, ap, ◌∙◌, ◌++◌, bit_and, bit_or, length, length-append, take,
  take-append_self, drop-append_self, arith,
}
use grapec.Base.Int.{ℤ, pos}
use grapec.Base.Bits.{bit_or_above, bit_and_above, bit_and_0xff, bit_and_mask}
use grapec.Errors.{ok}
use grapec.Struct.{unpack_signed, unpack_unsigned}
use grapec.Struct.RoundTrip.{unpack-pack_signed, unpack-pack_unsigned, InRange}
use grapec.Text.{Str, encode, decode_replace}
use grapec.Text.RoundTrip.{decode-encode, IsText}
use grapec.Text.Strict.{decode_replace-decode}
use grapec.Thrift.{need, read, check_count, read_binary}
use grapec.Thrift.Message.{
  version_1, version_mask, message, encode_message, read_u32, decode_message,
}
use grapec.Wire.{Bytes}

pub need-append : (xs ys : Bytes) (n : ℕ) → length xs ≡ n → need n (xs ++ ys) ≡ ok ys
unfolding need
need-append xs ys n h = rw (← h) (ground (arith, length-append xs ys, drop-append_self xs ys))

pub take-append : (xs ys : Bytes) (n : ℕ) → length xs ≡ n → take n (xs ++ ys) ≡ xs
take-append xs ys n h = rw (← h) (take-append_self xs ys)

-- The readers on what was packed, whatever follows.
pub read-append :
    (n : ℕ) (xs ys : Bytes) (z : ℤ)
    → length xs ≡ n
    → unpack_signed n xs ≡ z
    → read n (xs ++ ys) ≡ ok (z, ys)
unfolding read
read-append n xs ys z h e = rw (need-append xs ys n h, take-append xs ys n h, e)

read_u32-append :
    (xs ys : Bytes) (n : ℕ)
    → length xs ≡ 4
    → unpack_unsigned xs ≡ n
    → read_u32 (xs ++ ys) ≡ ok (n, ys)
unfolding read_u32
read_u32-append xs ys n h e = rw (need-append xs ys 4 h, take-append xs ys 4 h, e)

pub read_binary-append :
    (size raw ys : Bytes)
    → length size ≡ 4
    → unpack_signed 4 size ≡ pos (length raw)
    → read_binary (size ++ (raw ++ ys)) ≡ ok (raw, ys)
unfolding read_binary check_count
read_binary-append size raw ys h e = rw (
  read-append 4 size (raw ++ ys) (pos (length raw)) h e,
  need-append raw ys (length raw) refl,
  take-append raw ys (length raw) refl,
)

version_bits : (mtype : ℕ) → mtype < 256 → bit_or version_1 mtype ≡ version_1 + mtype
version_bits mtype h = bit_or_above 8 0x800100 mtype h

version_check : (mtype : ℕ) → mtype < 256 → bit_and (version_1 + mtype) version_mask ≡ version_1
version_check mtype h =
    bit_and_above 16 (version_1 + mtype) 0xffff
    ∙ omega (arith, bit_and_mask 16 ((version_1 + mtype) / 2 ^ 16))

-- A sequence number or a length.
abbrev pub Fits31 : ℕ → Type 0
Fits31 n = n < 2 ^ 31

pack-Fits31 : (n : ℕ) → Fits31 n → InRange 4 (pos n)
pack-Fits31 n h = (omega arith, omega arith)

-- What was written behind the frame's length: it is made up of the five parts.
pub message_parts :
    (name : Str) (mtype n : ℕ) (body raw : Bytes)
    → encode name ≡ ok raw
    → mtype < 256
    → Fits31 n
    → Fits31 (length raw)
    → (content : Bytes) × (message name mtype (pos n) body ≡ ok content)
      × (decode_message content ≡ ok (decode_replace raw, mtype, pos n, body))
      × (length content ≡ 12 + length raw + length body)
unfolding message decode_message
message_parts name mtype n body raw en hm hn hr =
    let (header, ph, lh, uh) = unpack-pack_unsigned 4 (version_1 + mtype) (omega arith) in
    let (size, ps, ls, us) = unpack-pack_signed 3 (pos (length raw)) (pack-Fits31 _ hr) in
    let (number, pn, ln, un) = unpack-pack_signed 3 (pos n) (pack-Fits31 n hn) in
    (
      header ++ (size ++ (raw ++ (number ++ body))),
      rw (en, version_bits mtype hm, ph, ps, pn),
      rw
          (
            read_u32-append header (size ++ (raw ++ (number ++ body))) (version_1 + mtype) lh uh,
            version_check mtype hm,
            read_binary-append size raw (number ++ body) ls us,
            read-append 4 number body (pos n) ln un,
            bit_and_0xff (version_1 + mtype),
          )
          (ap (λ t. ok (decode_replace raw, t, pos n, body)) (omega arith)),
      omega (
        arith,
        length-append header (size ++ (raw ++ (number ++ body))),
        length-append size (raw ++ (number ++ body)),
        length-append raw (number ++ body),
        length-append number body,
      ),
    )

-- A message whose name has no lone surrogates, whose type is below 256, whose number is below 2 ^
-- 31 and which with its header has fewer than 2 ^ 31 bytes is encoded as the length of a content
-- and that content, from which decoding gives the name, type, number and body.
pub decode-encode_message :
    (name : Str) (mtype n : ℕ) (body raw : Bytes)
    → IsText name
    → encode name ≡ ok raw
    → mtype < 256
    → Fits31 n
    → Fits31 (12 + length raw + length body)
    → (size : Bytes) × (content : Bytes) × (encode_message name mtype (pos n) body
        ≡ ok (size ++ content))
      × (length size ≡ 4)
      × (unpack_unsigned size ≡ length content)
      × (decode_message content ≡ ok (name, mtype, pos n, body))
unfolding encode_message
decode-encode_message name mtype n body raw text en hm hn hf =
    let (content, ec, dc, lc) = message_parts name mtype n body raw en hm hn (omega arith) in
    let (size, ep, ls, us) = unpack-pack_unsigned 4 (length content) (omega arith) in
    let (raw', en', back) = decode-encode name text in
    let same : raw ≡ raw' = cc in
    let named : decode_replace raw ≡ name =
      ap decode_replace same ∙ decode_replace-decode raw' name back in
    (size, content, rw (ec, ep), ls, us, dc ∙ ap (λ t. ok (t, mtype, pos n, body)) named)
