-- ===== src/Thrift/Schemas.antt =====
-- The schema checks of thrift.py, and `encode` and `decode` behind them. `_checked` is a list of
-- classes that a check takes and gives back.
pub mod Closed
pub mod RoundTrip
use grapec.Base.{
  ℕ, zero, suc, ◌^◌, ◌-◌, Bool, true, false, ◌||◌, List, [], ◌∷◌, ltb, ◌==◌, if◌then◌else◌,
}
use grapec.Errors.{
  Result, ok, err, ◌>>=◌, ◌and_then◌, schema_error, no_thrift_type, field_id_too_large, type_error,
  recursion_error, thrift_error, trailing_bytes,
}
use grapec.Schema.{
  TypeSpec, scalar, struct, timestamp, duration, list_of, map_of, one_of, Members, no_members,
  member, FieldSpec, Fields, Classes, Value, obj,
}
use grapec.Thrift.Encode.{encode_struct}
use grapec.Thrift.Decode.{decode_struct}
use grapec.Wire.{Bytes}

abbrev pub max_field_id : ℕ
max_field_id = 2 ^ 15 - 1

-- The classes of `_checked`.
abbrev pub Checked : Type 0
Checked = List ℕ

abbrev pub Outcome : Type 0 → Type 0
Outcome A = Result A × Checked

unfoldable pub contains : ℕ → Checked → Bool
contains c [] = false
contains c (d ∷ ds) = c == d || contains c ds

-- `_checked.discard(cls)`
unfoldable pub discard : ℕ → Checked → Checked
discard c [] = []
discard c (d ∷ ds) = let rest = discard c ds in if c == d then rest else d ∷ rest

unfoldable pub too_large : Members → Bool
too_large no_members = false
too_large (member n spec ms) = ltb max_field_id n || too_large ms

-- Some number of `field.numbers()` does not fit.
unfoldable pub numbers_too_large : ℕ → TypeSpec → Bool
unfolding too_large
numbers_too_large n (one_of ms) = too_large ms
numbers_too_large n spec = ltb max_field_id n

module _ (nested : ℕ → Checked → Outcome (Unit {0})) where
  -- `_check_type`
  unfoldable mutual
    pub check_type : TypeSpec → Checked → Outcome (Unit {0})
    check_type timestamp s = (err (schema_error no_thrift_type), s)
    check_type duration s = (err (schema_error no_thrift_type), s)
    check_type (list_of item) s = check_type item s
    check_type (map_of key item) s = (check_type key s and_then λ t. check_type item t)
    check_type (one_of ms) s = check_members ms s
    check_type (struct c) s = nested c s
    check_type (scalar k w) s = (ok tt, s)
    check_type (TypeSpec.enum c) s = (ok tt, s)

    pub check_members : Members → Checked → Outcome (Unit {0})
    check_members no_members s = (ok tt, s)
    check_members (member n spec ms) s = (check_type spec s and_then λ t. check_members ms t)

  unfoldable pub check_fields : Fields → Checked → Outcome (Unit {0})
  unfolding check_type numbers_too_large
  check_fields [] s = (ok tt, s)
  check_fields (f ∷ fs) s =
      let rest = (check_type f.type s and_then λ t. check_fields fs t) in
      if numbers_too_large f.number f.type then (err (schema_error field_id_too_large), s) else rest

-- The handler: a class that fails is taken out again.
unfoldable pub handled : ℕ → Outcome (Unit {0}) → Outcome (Unit {0})
unfolding discard
handled c (err (schema_error e), s) = (err (schema_error e), discard c s)
handled c (r, s) = (r, s)

-- `check_schema`, nested as deep as Python lets it.
unfoldable pub check_schema : ℕ → Classes → ℕ → Checked → Outcome (Unit {0})
unfolding contains check_fields handled
check_schema zero classes c s = (err recursion_error, s)
check_schema (suc depth) classes c s =
    let walked = check_fields (check_schema depth classes) (classes.fields_of c) (c ∷ s) in
    if contains c s then (ok tt, s) else handled c walked

-- `encode(obj)`: a value that is no struct instance has no schema.
unfoldable pub encode : Classes → Value → Checked → Outcome Bytes
unfolding check_schema encode_struct
encode classes (obj c vs) s =
    (check_schema classes.recursion_limit classes c s and_then λ t.
    (encode_struct classes.recursion_limit classes c vs, t))
encode classes v s = (err type_error, s)

-- `decode(cls, data)`
unfoldable pub whole : Value × Bytes → Result Value
whole (v, []) = ok v
whole (v, b ∷ bs) = err (thrift_error trailing_bytes)

unfoldable pub decode : Classes → ℕ → Bytes → Checked → Outcome Value
unfolding check_schema decode_struct whole
decode classes c buf s =
    (check_schema classes.recursion_limit classes c s and_then λ t.
    (decode_struct classes.recursion_limit classes c buf >>= whole, t))
