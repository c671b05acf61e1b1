-- ===== src/Schema/Zero.antt =====
-- `zero_value` of src/grapec/schema.py.
use grapec.Base.{ℕ, zero, suc, [], ◌∷◌, if◌then◌else◌, Bool}
use grapec.Base.Int.{pos}
use grapec.Errors.{Result, ok, err, ◌>>=◌, recursion_error}
use grapec.Schema.{
  Kind, TypeSpec, scalar, struct, timestamp, duration, list_of, map_of, one_of, Fields, Classes,
  Value, null, obj, list, dict, datetime, timedelta, Values, nil, cons, empty, enum_value,
}

pub zero_scalar : Kind → Value
zero_scalar Kind.int = Value.int (pos 0)
zero_scalar Kind.float = Value.float 0
zero_scalar Kind.str = Value.str []
zero_scalar Kind.bytes = Value.bytes []
zero_scalar Kind.bool = Value.bool Bool.false

-- A field that is absent: None, or the zero value of its type.
unfoldable pub absent_fields : (TypeSpec → Result Value) → Fields → Result Values
absent_fields zero_of [] = ok nil
absent_fields zero_of (f ∷ fs) = do
  v ← (let z = zero_of f.type in if f.optional then ok null else z)
  vs ← absent_fields zero_of fs
  ok (cons v vs)

-- A struct's zero value has the zero values of its fields: a struct that holds itself has none, and
-- Python stops at its recursion limit.
unfoldable pub zero_value : ℕ → Classes → TypeSpec → Result Value
unfolding zero_scalar absent_fields
zero_value depth classes (scalar k w) = ok (zero_scalar k)
zero_value depth classes (TypeSpec.enum c) = ok (enum_value classes c (pos 0))
zero_value depth classes timestamp = ok (datetime (pos 0))
zero_value depth classes duration = ok (timedelta (pos 0))
zero_value depth classes (list_of item) = ok (list nil)
zero_value depth classes (map_of key value) = ok (dict empty)
zero_value depth classes (one_of ms) = ok null
zero_value zero classes (struct c) = err recursion_error
zero_value (suc depth) classes (struct c) =
    absent_fields (zero_value depth classes) (classes.fields_of c) >>= λ vs. ok (obj c vs)
