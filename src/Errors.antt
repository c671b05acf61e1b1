-- ===== src/Errors.antt =====
-- src/grapec/errors.py, with the exceptions that the modules raise as values.
-- The texts of the messages are left out; a fault names the `raise` that it stands for.
use grapec.Base.{◌≡◌, refl, ◌⊎◌, inl, inr}

-- errors.Status, whose numbers are those of gRPC.
pub data Status : Type 0 where
  ok_status cancelled unknown invalid_argument deadline_exceeded not_found already_exists : Status
  permission_denied resource_exhausted failed_precondition aborted out_of_range : Status
  unimplemented internal unavailable data_loss unauthenticated : Status

-- The places that raise wire.WireError.
pub data WireFault : Type 0 where
  truncated_varint varint_too_long field_number_zero truncated_fixed64 truncated_bytes : WireFault
  unsupported_wire_type truncated_field wire_type_mismatch : WireFault

-- The places that raise thrift.ThriftError.
pub data ThriftFault : Type 0 where
  trailing_bytes type_mismatch unknown_type truncated_input negative_size bad_version : ThriftFault

-- The places that raise errors.TransportError.
pub data TransportFault : Type 0 where
  busy_connection closed_connection closed_by_peer idle_data frame_too_long : TransportFault
  more_than_one_reply malformed_message wrong_seqid wrong_message_type wrong_name : TransportFault
  closed_session io_error : TransportFault
  truncated_body not_one_message missing_grpc_status unsupported_compression : TransportFault
  bad_compression terminated stream_reset no_http2 : TransportFault

-- The places that raise schema.SchemaError.
pub data SchemaFault : Type 0 where
  id_out_of_range id_reserved duplicate_number number_out_of_range duplicate_exception : SchemaFault
  no_thrift_type field_id_too_large not_an_exception : SchemaFault

-- An exception. `no_fuel` is none of the program's: the model's recursion was cut off.
pub data Error : Type 0 where
  wire_error : WireFault → Error
  thrift_error : ThriftFault → Error
  transport_error : TransportFault → Error
  schema_error : SchemaFault → Error
  rpc_error : Status → Error
  encode_error type_error value_error attribute_error assertion_error recursion_error : Error
  unicode_error overflow_error struct_error key_error socket_timeout os_error h2_error : Error
  cancelled_error : Error
  no_fuel : Error

pub data Result {ℓ} (A : Type ℓ) : Type ℓ where
  ok : A → Result A
  err : Error → Result A

infixl 5 ◌>>=◌
abbrev pub ◌>>=◌ {ℓ κ} : {A : Type ℓ} {B : Type κ} → Result A → (A → Result B) → Result B
ok x >>= next = next x
err e >>= next = err e

-- `first; second` on a state.
infixl 5 ◌and_then◌
abbrev pub ◌and_then◌ {ℓ κ} :
    {S : Type ℓ} {A : Type κ} → Result (Unit {0}) × S → (S → Result A × S) → Result A × S
(ok t, s) and_then next = next s
(err e, s) and_then next = (err e, s)

-- Inversion of a successful bind, for proofs where the parts stay shut.
pub >>=-eq-ok {ℓ κ} :
    {A : Type ℓ} {B : Type κ} (first : Result A) (next : A → Result B) {answer : B}
    → (first >>= next) ≡ ok answer
    → (x : A) × (first ≡ ok x) × (next x ≡ ok answer)
>>=-eq-ok (ok x) next e = (x, refl, e)
>>=-eq-ok (err fault) next e = cc

pub Result-cases {ℓ} :
    {A : Type ℓ} (r : Result A) → ((a : A) × (r ≡ ok a)) ⊎ ((e : Error) × (r ≡ err e))
Result-cases (ok a) = inl (a, refl)
Result-cases (err e) = inr (e, refl)

-- A result whose error, if it is one, satisfies `P`.
abbrev pub FailsAs {ℓ} : (P : Error → Type 0) {A : Type ℓ} → Result A → Type 0
FailsAs P (ok a) = Unit {0}
FailsAs P (err e) = P e

pub FailsAs-bind {ℓ κ} :
    (P : Error → Type 0) {A : Type ℓ} {B : Type κ} (m : Result A) (f : A → Result B)
    → FailsAs P m
    → ((a : A) → m ≡ ok a → FailsAs P (f a))
    → FailsAs P (m >>= f)
FailsAs-bind P (ok a) f h k = k a refl
FailsAs-bind P (err e) f h k = h

pub FailsAs-weaken {ℓ} :
    (P Q : Error → Type 0) {A : Type ℓ} (m : Result A)
    → ((e : Error) → P e → Q e)
    → FailsAs P m
    → FailsAs Q m
FailsAs-weaken P Q (ok a) h f = tt
FailsAs-weaken P Q (err e) h f = h e f
