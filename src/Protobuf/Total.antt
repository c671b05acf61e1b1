-- ===== src/Protobuf/Total.antt =====
-- The exceptions of the protobuf decoder, for values without fields of their own.
use grapec.Base.{ℕ, zero, suc, arith, Bool, true, false, [], ◌∷◌, Option, none, some, if◌then◌else◌}
use grapec.Errors.{
  Result, ok, ◌>>=◌, Error, wire_error, unicode_error, overflow_error, recursion_error,
  assertion_error, FailsAs, FailsAs-bind, FailsAs-weaken,
}
use grapec.Protobuf.Decode.{Named, get, arguments}
use grapec.Protobuf.Moments.{decode_seconds_nanos, decode_timestamp, decode_duration}
use grapec.Protobuf.Moments.Total.{decode_seconds_nanos-FailsOnWire}
use grapec.Schema.{
  TypeSpec, scalar, struct, timestamp, duration, list_of, map_of, one_of, Fields, Classes, Value,
  null,
}
use grapec.Schema.Zero.{zero_value, absent_fields}
use grapec.Text.{decode}
use grapec.Text.Total.{decode-FailsAs}
use grapec.Wire.{Bytes}
use grapec.Wire.Faults.{IsWireError, FailsOnWire}

-- What the decoder may raise: WireError, an error of UTF-8, a time out of range, too deep nesting,
-- and AssertionError for a type that no field of a schema has.
abbrev pub IsReadError : Error → Type 0
IsReadError (wire_error fault) = Unit {0}
IsReadError unicode_error = Unit {0}
IsReadError overflow_error = Unit {0}
IsReadError recursion_error = Unit {0}
IsReadError assertion_error = Unit {0}
IsReadError _ = ⊥

abbrev pub Reads {ℓ} : {A : Type ℓ} → Result A → Type 0
Reads = FailsAs IsReadError

wire-read : (e : Error) → IsWireError e → IsReadError e
wire-read (wire_error fault) h = tt
wire-read _ h = elim h [ ]

pub on_wire {ℓ} : {A : Type ℓ} (m : Result A) → FailsOnWire m → Reads m
on_wire m h = FailsAs-weaken IsWireError IsReadError m wire-read h

pub then_ok {ℓ κ} :
    {A : Type ℓ} {B : Type κ} (m : Result A) (f : A → B) → Reads m → Reads (m >>= λ a. ok (f a))
then_ok m f h = FailsAs-bind IsReadError m (λ a. ok (f a)) h (λ a e. tt)

pub text_lem : (raw : Bytes) → Reads (decode raw)
text_lem raw = decode-FailsAs IsReadError raw tt

pub timestamp_lem : (raw : Bytes) → Reads (decode_timestamp raw)
unfolding decode_timestamp
timestamp_lem raw =
    FailsAs-bind IsReadError (decode_seconds_nanos raw) _
      (on_wire (decode_seconds_nanos raw) (decode_seconds_nanos-FailsOnWire raw))
      λ (s, n) e. ground arith

pub duration_lem : (raw : Bytes) → Reads (decode_duration raw)
unfolding decode_duration
duration_lem raw =
    FailsAs-bind IsReadError (decode_seconds_nanos raw) _
      (on_wire (decode_seconds_nanos raw) (decode_seconds_nanos-FailsOnWire raw))
      λ (s, n) e. ground arith

-- A zero value is missing only where structs nest too deep, and so are the arguments of a
-- constructor.
module _ (P : Error → Type 0) (deep : P recursion_error) where
  absent-FailsAs :
      (zero_of : TypeSpec → Result Value)
      → ((spec : TypeSpec) → FailsAs P (zero_of spec))
      → (fs : Fields) → FailsAs P (absent_fields zero_of fs)
  unfolding absent_fields
  absent-FailsAs zero_of h [] = tt
  absent-FailsAs zero_of h (f ∷ fs) =
      FailsAs-bind P (if f.optional then ok null else zero_of f.type) _ (absent f.optional)
        λ v e. FailsAs-bind P (absent_fields zero_of fs) _ (absent-FailsAs zero_of h fs) λ vs e'. tt
    where
      absent : (optional : Bool) → FailsAs P (if optional then ok null else zero_of f.type)
      absent true = tt
      absent false = h f.type

  pub zero_value-FailsAs :
      (depth : ℕ) (classes : Classes) (spec : TypeSpec) → FailsAs P (zero_value depth classes spec)
  unfolding zero_value
  zero_value-FailsAs zero classes (struct c) = deep
  zero_value-FailsAs (suc depth) classes (struct c) =
      FailsAs-bind P (absent_fields (zero_value depth classes) (classes.fields_of c)) _
        (absent-FailsAs (zero_value depth classes) (zero_value-FailsAs depth classes)
          (classes.fields_of c))
        λ vs e. tt
  zero_value-FailsAs depth classes (scalar k w) = tt
  zero_value-FailsAs depth classes (TypeSpec.enum c) = tt
  zero_value-FailsAs depth classes timestamp = tt
  zero_value-FailsAs depth classes duration = tt
  zero_value-FailsAs depth classes (list_of item) = tt
  zero_value-FailsAs depth classes (map_of key item) = tt
  zero_value-FailsAs depth classes (one_of ms) = tt

  pub arguments-FailsAs :
      (classes : Classes) (fs : Fields) (values : Named) → FailsAs P (arguments classes fs values)
  unfolding arguments
  arguments-FailsAs classes [] values = tt
  arguments-FailsAs classes (f ∷ fs) values =
      FailsAs-bind P _ _ (one (get f.name values) f.optional) λ v e.
        FailsAs-bind P (arguments classes fs values) _ (arguments-FailsAs classes fs values)
          λ vs e'. tt
    where
      one :
          (found : Option Value) (optional : Bool)
          → FailsAs P (elim found as (λ t. Result Value) [
            | some v ↦ ok v
            | none ↦ if optional then ok null else zero_value classes.recursion_limit classes f.type
          ])
      one (some v) optional = tt
      one none true = tt
      one none false = zero_value-FailsAs classes.recursion_limit classes f.type

pub zero_value-Reads :
    (depth : ℕ) (classes : Classes) (spec : TypeSpec) → Reads (zero_value depth classes spec)
zero_value-Reads = zero_value-FailsAs IsReadError tt
