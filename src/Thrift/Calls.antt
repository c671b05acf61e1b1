-- ===== src/Thrift/Calls.antt =====
-- The calls of thrift.py: `method_fields`, `encode_call` and `decode_result`. A method is known by
-- a number, which stands for its `MethodSpec`.
pub mod Results
use grapec.Base.{
  ℕ, suc, ◌+◌, Bool, true, false, List, [], ◌∷◌, ◌++◌, Option, none, some, ltb, ◌==◌, if◌then◌else◌,
}
use grapec.Base.Int.{ℤ}
use grapec.Errors.{
  Result, ok, err, ◌>>=◌, ◌and_then◌, schema_error, field_id_too_large, thrift_error, unicode_error,
  rpc_error, trailing_bytes, internal, unknown,
}
use grapec.Protobuf.Decode.{Named, get}
use grapec.Schema.{TypeSpec, struct, FieldSpec, Fields, Classes, Value, null}
use grapec.Text.{Str}
use grapec.Text.Digits.{digits}
use grapec.Thrift.Decode.{decode_fields, decode_struct}
use grapec.Thrift.Encode.{encode_fields, encode_struct}
use grapec.Thrift.Schemas.{max_field_id, Checked, check_type, check_schema}
use grapec.Wire.{Bytes}

-- service.MethodSpec: the parameters, the returned type, and the exceptions by field id.
pub record MethodSpec : Type 0 where
  pub key : ℕ
  pub params : Fields
  pub returns : Option TypeSpec
  pub raises : List (ℕ × ℕ)

-- `_checked` and `_methods`, which holds the fields of the arguments and those of the result.
pub record State : Type 0 where
  pub checked : Checked
  pub methods : List (ℕ × Fields × Fields)

abbrev pub Outcome : Type 0 → Type 0
Outcome A = Result A × State

unfoldable pub cached : ℕ → List (ℕ × Fields × Fields) → Option (Fields × Fields)
cached key [] = none
cached key ((k, args, result) ∷ rest) = if k == key then some (args, result) else cached key rest

abbrev pub success : Str
success = b's' ∷ b'u' ∷ b'c' ∷ b'c' ∷ b'e' ∷ b's' ∷ b's' ∷ []

abbrev pub exception : Str
exception = b'e' ∷ b'x' ∷ b'c' ∷ b'e' ∷ b'p' ∷ b't' ∷ b'i' ∷ b'o' ∷ b'n' ∷ []

abbrev pub success_field : TypeSpec → FieldSpec
success_field spec = record { name = success; number = 0; type = spec; optional = true }

abbrev pub exception_field : ℕ → ℕ → FieldSpec
exception_field number c = record {
  name = exception ++ digits number;
  number = number;
  type = struct c;
  optional = true;
}

-- The fields of the exceptions, and those of the whole result struct.
unfoldable pub exception_fields : List (ℕ × ℕ) → Fields
exception_fields [] = []
exception_fields ((number, c) ∷ rest) = exception_field number c ∷ exception_fields rest

unfoldable pub result_fields : MethodSpec → Fields
unfolding exception_fields
result_fields spec = elim spec.returns [
  | none ↦ exception_fields spec.raises
  | some returned ↦ success_field returned ∷ exception_fields spec.raises
]

-- The checks of `method_fields`, each a check of `_checked`.
abbrev Check : Type 0
Check = Checked → Result (Unit {0}) × Checked

-- `raise exc` with an exception of the server, or a value that is returned.
pub data Answer : Type 0 where
  returned raised : Value → Answer

-- The handler around reading the result struct.
unfoldable pub malformed : {A : Type 0} → Result A → Result A
malformed (err (thrift_error e)) = err (rpc_error internal)
malformed (err unicode_error) = err (rpc_error internal)
malformed r = r

-- `result[1:] if result and result[0].number == 0 else result`
unfoldable pub without_success : Fields → Fields
without_success [] = []
without_success (f ∷ fs) = if f.number == 0 then fs else f ∷ fs

unfoldable pub first_raised : Fields → Named → Option Value
unfolding get
first_raised [] values = none
first_raised (f ∷ fs) values = elim (get f.name values) [
  | none ↦ first_raised fs values
  | some null ↦ first_raised fs values
  | some v ↦ some v
]

-- What the values of a result struct and its unknown fields mean.
unfoldable pub answer : MethodSpec → Fields → Named → List ℤ → Result Answer
unfolding without_success first_raised get
answer spec result values others = elim (first_raised (without_success result) values) [
  | some exc ↦ ok (raised exc)
  | none ↦ elim others [
    | _ ∷ _ ↦ err (rpc_error unknown)
    | [] ↦ elim spec.returns [
      | none ↦ ok (returned null)
      | some t ↦ elim (get success values) [
        | some v ↦ ok (returned v)
        | none ↦ err (rpc_error unknown)
      ]
    ]
  ]
]

module _ (classes : Classes) where
  abbrev check_class : ℕ → Check
  check_class c = check_schema classes.recursion_limit classes c

  pub check_params : Fields → Check
  check_params [] s = (ok tt, s)
  check_params (f ∷ fs) s =
      let rest = (check_type check_class f.type s and_then check_params fs) in
      if ltb max_field_id f.number then (err (schema_error field_id_too_large), s) else rest

  pub check_raises : List (ℕ × ℕ) → Check
  check_raises [] s = (ok tt, s)
  check_raises ((number, c) ∷ rest) s =
      let more = (check_class c s and_then check_raises rest) in
      if ltb max_field_id number then (err (schema_error field_id_too_large), s) else more

  pub check_returns : Option TypeSpec → Check
  check_returns none s = (ok tt, s)
  check_returns (some spec) s = check_type check_class spec s

  pub check_method : MethodSpec → Check
  unfolding check_params check_returns check_raises
  check_method spec s =
      check_params spec.params s
      and_then check_returns spec.returns
      and_then check_raises spec.raises

  -- What the checks leave in the two caches.
  unfoldable pub kept :
      MethodSpec → Fields × Fields → State → Result (Unit {0}) × Checked → Outcome (Fields × Fields)
  kept spec fields s (err e, checked) = (err e, record s { checked = checked })
  kept spec fields s (ok t, checked) = (
    ok fields,
    record s { checked = checked; methods = (spec.key, fields.0, fields.1) ∷ s.methods },
  )

  -- `method_fields`: what is found once is kept.
  unfoldable pub method_fields : MethodSpec → State → Outcome (Fields × Fields)
  unfolding check_method cached result_fields kept
  method_fields spec s =
      let fields : Fields × Fields = (spec.params, result_fields spec) in
      elim (cached spec.key s.methods) [
        | some found ↦ (ok found, s)
        | none ↦ kept spec fields s (check_method spec s.checked)
      ]

  unfoldable pub encode_call : MethodSpec → Named → State → Outcome Bytes
  unfolding method_fields encode_fields encode_struct
  encode_call spec values s =
      let (fields, s') = method_fields spec s in
      (
        fields >>= λ (args, result).
            encode_fields (encode_struct classes.recursion_limit classes) args values,
        s',
      )

  unfoldable pub read_result : Fields → Bytes → Result (Named × List ℤ)
  unfolding decode_fields decode_struct
  read_result result body = do
    (values, others, rest) ←
        decode_fields (decode_struct classes.recursion_limit classes) classes result body
    elim rest [ [] ↦ ok (values, others) | _ ∷ _ ↦ err (thrift_error trailing_bytes) ]

  unfoldable pub decode_result : MethodSpec → Bytes → State → Outcome Answer
  unfolding method_fields malformed read_result answer
  decode_result spec body s =
      let (fields, s') = method_fields spec s in
      (
        fields >>= λ (args, result).
            (malformed (read_result result body) >>= λ (values, others).
            answer spec result values others),
        s',
      )
