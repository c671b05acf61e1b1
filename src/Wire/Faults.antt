-- ===== src/Wire/Faults.antt =====
-- The exceptions that the readers of wire.py raise.
use grapec.Base.{ℕ, ◌+◌, ◌*◌, ◌^◌, ◌≡◌, arith, bit_and, bit_or, [], ◌∷◌}
use grapec.Errors.{Result, ok, ◌>>=◌, Error, wire_error, FailsAs, FailsAs-bind}
use grapec.Wire.{
  Bytes, decode_loop, decode_varint, decode_tag, decode_double, decode_bytes, advance, skip_field,
}

abbrev pub IsWireError : Error → Type 0
IsWireError (wire_error fault) = Unit {0}
IsWireError _ = ⊥

abbrev pub FailsOnWire {ℓ} : {A : Type ℓ} → Result A → Type 0
FailsOnWire = FailsAs IsWireError

pub FailsOnWire-bind {ℓ κ} :
    {A : Type ℓ} {B : Type κ} (m : Result A) (f : A → Result B)
    → FailsOnWire m
    → ((a : A) → m ≡ ok a → FailsOnWire (f a))
    → FailsOnWire (m >>= f)
FailsOnWire-bind = FailsAs-bind IsWireError

decode_loop-FailsOnWire :
    (buf : Bytes) (result shift : ℕ) → FailsOnWire (decode_loop buf result shift)
unfolding decode_loop
decode_loop-FailsOnWire [] result shift = tt
decode_loop-FailsOnWire (b ∷ bs) result shift =
    ground
      (arith, decode_loop-FailsOnWire bs (bit_or result (bit_and b 0x7f * 2 ^ shift)) (shift + 7))

pub decode_varint-FailsOnWire : (buf : Bytes) → FailsOnWire (decode_varint buf)
unfolding decode_varint
decode_varint-FailsOnWire buf = decode_loop-FailsOnWire buf 0 0

pub decode_tag-FailsOnWire : (buf : Bytes) → FailsOnWire (decode_tag buf)
unfolding decode_tag
decode_tag-FailsOnWire buf =
    FailsOnWire-bind (decode_varint buf) _ (decode_varint-FailsOnWire buf)
      λ (key, rest) e. ground arith

pub decode_bytes-FailsOnWire : (buf : Bytes) → FailsOnWire (decode_bytes buf)
unfolding decode_bytes
decode_bytes-FailsOnWire buf =
    FailsOnWire-bind (decode_varint buf) _ (decode_varint-FailsOnWire buf)
      λ (size, rest) e. ground arith

pub decode_double-FailsOnWire : (buf : Bytes) → FailsOnWire (decode_double buf)
unfolding decode_double
decode_double-FailsOnWire buf = ground arith

pub skip_field-FailsOnWire : (buf : Bytes) (wire_type : ℕ) → FailsOnWire (skip_field buf wire_type)
unfolding skip_field advance
skip_field-FailsOnWire buf wire_type = ground (
  arith,
  FailsOnWire-bind (decode_varint buf) (λ p. ok p.1) (decode_varint-FailsOnWire buf) (λ a e. tt),
  FailsOnWire-bind (decode_bytes buf) (λ p. ok p.1) (decode_bytes-FailsOnWire buf) (λ a e. tt),
)
