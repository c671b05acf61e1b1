-- ===== src/Thrift/Codec/Ends.antt =====
-- The struct decoder of thrift.py on any bytes.
use grapec.Base.{
  ℕ, zero, suc, ◌≤◌, ◌<◌, arith, List, [], ◌∷◌, ◌++◌, Option, none, some, ◌==◌, length, Bool-cases,
  inl, inr,
}
use grapec.Base.Int.{ℤ}
use grapec.Errors.{
  Result, ok, err, ◌>>=◌, Error, thrift_error, unicode_error, key_error, recursion_error,
  assertion_error, FailsAs,
}
use grapec.Protobuf.Decode.{Named, put, arguments, append_value, set_item}
use grapec.Protobuf.Total.{arguments-FailsAs}
use grapec.Schema.{
  Kind, TypeSpec, scalar, struct, timestamp, duration, list_of, map_of, one_of, FieldSpec, Fields,
  Classes, Value, Values, Entries,
}
use grapec.Text.{decode}
use grapec.Text.Total.{decode-FailsAs}
use grapec.Thrift.{need, read, read_byte, read_binary, check_count, skip, stop_code}
use grapec.Thrift.Decode.{
  entry_of, read_double, expect, decode_each, decode_pairs, decode_typed, decode_value, decode_one,
  decode_loop, decode_fields, decode_struct,
}
use grapec.Thrift.Encode.{int_type, int_size, type_of}
use grapec.Thrift.Total.{
  IsThriftError, Yields, need_lem, read_lem, read_byte_lem, check_count_lem, read_binary_lem,
  skip_lem, Skips,
}
use grapec.Wire.{Bytes, Read}

-- What the decoder may raise: ThriftError, an error of UTF-8, too deep nesting, and the errors for
-- a type or a width that no checked schema has.
abbrev pub IsDecodeError : Error → Type 0
IsDecodeError (thrift_error fault) = Unit {0}
IsDecodeError unicode_error = Unit {0}
IsDecodeError recursion_error = Unit {0}
IsDecodeError assertion_error = Unit {0}
IsDecodeError key_error = Unit {0}
IsDecodeError _ = ⊥

-- A value with the property, or one of these errors.
abbrev pub Ends {ℓ} : {A : Type ℓ} → (A → Type 0) → Result A → Type 0
Ends Q (ok a) = Q a
Ends Q (err e) = IsDecodeError e

pub Ends-bind {ℓ κ} :
    {A : Type ℓ} {B : Type κ} (Q : A → Type 0) (R : B → Type 0) (m : Result A) (f : A → Result B)
    → Ends Q m
    → ((a : A) → Q a → Ends R (f a))
    → Ends R (m >>= f)
Ends-bind Q R (ok a) f h k = k a h
Ends-bind Q R (err e) f h k = h

Ends-weaken {ℓ} :
    {A : Type ℓ} (Q R : A → Type 0) (m : Result A) → Ends Q m → ((a : A) → Q a → R a) → Ends R m
Ends-weaken Q R (ok a) h k = k a h
Ends-weaken Q R (err e) h k = h

thrift-decode : (e : Error) → IsThriftError e → IsDecodeError e
thrift-decode (thrift_error fault) h = tt
thrift-decode _ h = elim h [ ]

from_thrift {ℓ} : {A : Type ℓ} (Q : A → Type 0) (m : Result A) → Yields Q m → Ends Q m
from_thrift Q (ok a) h = h
from_thrift Q (err e) h = thrift-decode e h

from_skip {ℓ} : {A : Type ℓ} (Q : A → Type 0) (m : Result A) → Skips Q m → Ends Q m
from_skip Q (ok a) h = h
from_skip Q (err (thrift_error fault)) h = tt
from_skip Q (err recursion_error) h = tt
from_skip Q (err _) h = elim h [ ]

from_fails {ℓ} : {A : Type ℓ} (m : Result A) → FailsAs IsDecodeError m → Ends (λ a. Unit {0}) m
from_fails (ok a) h = tt
from_fails (err e) h = h

-- A reader that takes a byte at least, or one that may take none.
abbrev pub Takes {ℓ} : {A : Type ℓ} → Bytes → Read A → Type 0
Takes buf = Ends (λ p. length p.1 < length buf)

abbrev Leaves {ℓ} : {A : Type ℓ} → Bytes → Read A → Type 0
Leaves buf = Ends (λ p. length p.1 ≤ length buf)

-- A result made of what was read.
made {ℓ κ} :
    {A : Type ℓ} {B : Type κ} (buf : Bytes) (m : Read A) (f : A → B)
    → Takes buf m
    → Takes buf (m >>= λ (a, rest). ok (f a, rest))
made buf (ok (a, rest)) f h = h
made buf (err e) f h = h

-- The same behind a count, where the loop may have no rounds.
made_after {ℓ κ} :
    {A : Type ℓ} {B : Type κ} (buf before : Bytes) (m : Read A) (f : A → B)
    → length buf < length before
    → Leaves buf m
    → Takes before (m >>= λ (a, rest). ok (f a, rest))
made_after buf before (ok (a, rest)) f less h = omega arith
made_after buf before (err e) f less h = h

int_size_lem : (t : ℕ) → Ends (λ size. 0 < size) (int_size t)
unfolding int_size
int_size_lem t = ground arith

type_of_lem : (spec : TypeSpec) → Ends (λ t. Unit {0}) (type_of spec)
unfolding type_of int_type
type_of_lem (scalar Kind.int w) = ground arith
type_of_lem (scalar Kind.bool w) = tt
type_of_lem (scalar Kind.float w) = tt
type_of_lem (scalar Kind.str w) = tt
type_of_lem (scalar Kind.bytes w) = tt
type_of_lem (TypeSpec.enum c) = tt
type_of_lem (struct c) = tt
type_of_lem timestamp = tt
type_of_lem duration = tt
type_of_lem (list_of item) = tt
type_of_lem (map_of key item) = tt
type_of_lem (one_of ms) = tt

expect_lem : (spec : TypeSpec) (t : ℕ) → Ends (λ u. Unit {0}) (expect spec t)
unfolding expect
expect_lem spec t =
    Ends-bind _ (λ u. Unit {0}) (type_of spec) _ (type_of_lem spec) λ e u. ground arith

read_takes : (size : ℕ) (buf : Bytes) → 0 < size → Takes buf (read size buf)
read_takes size buf h =
    Ends-weaken _ _ (read size buf) (from_thrift _ (read size buf) (read_lem size buf))
      λ p e. omega arith

byte_takes : (buf : Bytes) → Takes buf (read_byte buf)
byte_takes buf =
    Ends-weaken _ _ (read_byte buf) (from_thrift _ (read_byte buf) (read_byte_lem buf))
      λ p e. omega arith

binary_takes : (buf : Bytes) → Takes buf (read_binary buf)
binary_takes buf = from_thrift _ (read_binary buf) (read_binary_lem buf)

double_takes : (buf : Bytes) → Takes buf (read_double buf)
unfolding read_double
double_takes buf =
    Ends-bind _ (λ p. length p.1 < length buf) (need 8 buf) _
      (from_thrift _ (need 8 buf) (need_lem 8 buf)) λ rest e. omega arith

count_lem : (z : ℤ) → Ends (λ n. Unit {0}) (check_count z)
count_lem z = from_thrift _ (check_count z) (check_count_lem z)

each_lem :
    (one : Bytes → Read Value)
    → ((buf : Bytes) → Takes buf (one buf))
    → (n : ℕ) (buf : Bytes) (out : Values) → Leaves buf (decode_each one n buf out)
unfolding decode_each
each_lem one h zero buf out = omega arith
each_lem one h (suc n) buf out =
    Ends-bind _ (λ p. length p.1 ≤ length buf) (one buf) _ (h buf)
      λ (v, rest) e.
        Ends-weaken _ _ (decode_each one n rest (append_value out v))
          (each_lem one h n rest (append_value out v)) λ p k. omega arith

pairs_lem :
    (first second : Bytes → Read Value)
    → ((buf : Bytes) → Takes buf (first buf))
    → ((buf : Bytes) → Takes buf (second buf))
    → (n : ℕ) (buf : Bytes) (es : Entries) → Leaves buf (decode_pairs first second n buf es)
unfolding decode_pairs
pairs_lem first second h k zero buf es = omega arith
pairs_lem first second h k (suc n) buf es =
    Ends-bind _ (λ p. length p.1 ≤ length buf) (first buf) _ (h buf)
      λ (a, buf1) e1.
        Ends-bind _ (λ p. length p.1 ≤ length buf) (second buf1) _ (k buf1)
          λ (b, buf2) e2.
            Ends-weaken _ _ (decode_pairs first second n buf2 (set_item es a b))
              (pairs_lem first second h k n buf2 (set_item es a b)) λ p r. omega arith

module _ (nested : ℕ → Bytes → Read Value) (classes : Classes)
    (ends : (c : ℕ) (buf : Bytes) → Takes buf (nested c buf)) where
  -- What stands in the place of `_decode_value` in the loops over a list and a map.
  abbrev item_reader : TypeSpec → ℕ → Bytes → Read Value
  item_reader spec t b = (expect spec t >>= λ u. decode_typed nested classes spec b t)

  checked_lem :
      (spec : TypeSpec) (t : ℕ) (buf : Bytes)
      → Takes buf (decode_typed nested classes spec buf t)
      → Takes buf (item_reader spec t buf)
  checked_lem spec t buf h =
      Ends-bind _ (λ p. length p.1 < length buf) (expect spec t) _ (expect_lem spec t) λ u k. h

  typed_lem :
      (spec : TypeSpec) (buf : Bytes) (t : ℕ) → Takes buf (decode_typed nested classes spec buf t)
  unfolding decode_typed
  typed_lem (scalar Kind.int w) buf t =
      Ends-bind _ (λ p. length p.1 < length buf) (int_size t) _ (int_size_lem t)
        λ size h. made buf (read size buf) _ (read_takes size buf h)
  typed_lem (TypeSpec.enum c) buf t = made buf (read 4 buf) _ (read_takes 4 buf (omega arith))
  typed_lem (scalar Kind.bool w) buf t = made buf (read_byte buf) _ (byte_takes buf)
  typed_lem (scalar Kind.float w) buf t = made buf (read_double buf) _ (double_takes buf)
  typed_lem (scalar Kind.str w) buf t =
      Ends-bind _ (λ p. length p.1 < length buf) (read_binary buf) _ (binary_takes buf)
        λ (raw, rest) h.
          Ends-bind _ (λ p. length p.1 < length buf) (decode raw) _
            (from_fails (decode raw) (decode-FailsAs IsDecodeError raw tt)) λ s u. h
  typed_lem (scalar Kind.bytes w) buf t = made buf (read_binary buf) _ (binary_takes buf)
  typed_lem (struct c) buf t = ends c buf
  typed_lem (list_of item) buf t =
      Ends-bind _ (λ p. length p.1 < length buf) (read_byte buf) _ (byte_takes buf)
        λ (etype, buf1) h1.
          Ends-bind _ (λ p. length p.1 < length buf) (read 4 buf1) _
            (read_takes 4 buf1 (omega arith))
            λ (count, buf2) h2.
              Ends-bind _ (λ p. length p.1 < length buf) (check_count count) _ (count_lem count)
                λ n u.
                  made_after buf2 buf (decode_each (item_reader item etype) n buf2 Values.nil)
                    Value.list (omega arith)
                    (each_lem (item_reader item etype)
                      (λ b. checked_lem item etype b (typed_lem item b etype)) n buf2 Values.nil)
  typed_lem (map_of key item) buf t =
      Ends-bind _ (λ p. length p.1 < length buf) (read_byte buf) _ (byte_takes buf)
        λ (ktype, buf1) h1.
          Ends-bind _ (λ p. length p.1 < length buf) (read_byte buf1) _ (byte_takes buf1)
            λ (vtype, buf2) h2.
              Ends-bind _ (λ p. length p.1 < length buf) (read 4 buf2) _
                (read_takes 4 buf2 (omega arith))
                λ (count, buf3) h3.
                  Ends-bind _ (λ p. length p.1 < length buf) (check_count count) _ (count_lem count)
                    λ n u.
                      made_after buf3 buf
                        (decode_pairs (item_reader key ktype) (item_reader item vtype) n buf3
                          Entries.empty)
                        Value.dict (omega arith)
                        (pairs_lem (item_reader key ktype) (item_reader item vtype)
                          (λ b. checked_lem key ktype b (typed_lem key b ktype))
                          (λ b. checked_lem item vtype b (typed_lem item b vtype)) n buf3
                          Entries.empty)
  typed_lem timestamp buf t = tt
  typed_lem duration buf t = tt
  typed_lem (one_of ms) buf t = tt

  value_lem :
      (spec : TypeSpec) (buf : Bytes) (t : ℕ) → Takes buf (decode_value nested classes spec buf t)
  unfolding decode_value
  value_lem spec buf t = checked_lem spec t buf (typed_lem spec buf t)

  one_lem :
      (fields : Fields) (number : ℤ) (t : ℕ) (buf : Bytes) (values : Named) (unknown : List ℤ)
      → Ends
          (λ p. length p.2 < length buf)
          (decode_one nested classes fields number t buf values unknown)
  unfolding decode_one
  one_lem fields number t buf values unknown = go (entry_of fields number)
    where
      go :
          (entry : Option (FieldSpec × Option TypeSpec))
          → Ends
              (λ p. length p.2 < length buf)
              (elim entry as (λ t. Result (Named × List ℤ × Bytes)) [
                | none ↦
                    (skip classes.recursion_limit buf t >>= λ rest.
                    ok (values, unknown ++ (number ∷ []), rest))
                | some (field, none) ↦
                    (decode_value nested classes field.type buf t >>= λ (v, rest).
                    ok (put field.name v values, unknown, rest))
                | some (field, some member) ↦
                    (decode_value nested classes member buf t >>= λ (v, rest).
                    ok (put field.name v values, unknown, rest))
              ])
      go none =
          Ends-bind _ (λ p. length p.2 < length buf) (skip classes.recursion_limit buf t) _
            (from_skip _ (skip classes.recursion_limit buf t)
              (skip_lem classes.recursion_limit buf t))
            λ rest h. h
      go (some (field, none)) =
          Ends-bind _ (λ p. length p.2 < length buf) (decode_value nested classes field.type buf t)
            _ (value_lem field.type buf t) λ (v, rest) h. h
      go (some (field, some member)) =
          Ends-bind _ (λ p. length p.2 < length buf) (decode_value nested classes member buf t) _
            (value_lem member buf t) λ (v, rest) h. h

  loop_lem :
      (fuel : ℕ) (fields : Fields) (buf : Bytes) (values : Named) (unknown : List ℤ)
      → length buf < fuel
      → Ends
          (λ p. length p.2 < length buf)
          (decode_loop nested classes fuel fields buf values unknown)
  unfolding decode_loop
  loop_lem zero fields buf values unknown h = absurd (omega arith)
  loop_lem (suc fuel) fields buf values unknown h =
      Ends-bind _ (λ p. length p.2 < length buf) (read_byte buf) _ (byte_takes buf)
        λ (t, buf1) h1. elim (Bool-cases (t == stop_code)) [
          | inl stop ↦ rw stop h1
          | inr go ↦ rw go (
              Ends-bind _ (λ p. length p.2 < length buf) (read 2 buf1) _
                (read_takes 2 buf1 (omega arith))
                λ (number, buf2) h2.
                  Ends-bind _ (λ p. length p.2 < length buf)
                    (decode_one nested classes fields number t buf2 values unknown) _
                    (one_lem fields number t buf2 values unknown)
                    λ (values', unknown', rest) h3.
                      Ends-weaken _ _ (decode_loop nested classes fuel fields rest values' unknown')
                        (loop_lem fuel fields rest values' unknown' (omega arith))
                        λ p k. omega arith)
        ]

  pub fields_lem :
      (fields : Fields) (buf : Bytes)
      → Ends (λ p. length p.2 < length buf) (decode_fields nested classes fields buf)
  unfolding decode_fields
  fields_lem fields buf = loop_lem (suc (length buf)) fields buf [] [] (omega arith)

-- Whatever the bytes, the class and the depth are, decoding a struct ends: with an instance and
-- fewer bytes left over, or with ThriftError, an error of UTF-8, RecursionError, AssertionError or
-- KeyError.
pub decode_struct_lem :
    (depth : ℕ) (classes : Classes) (c : ℕ) (buf : Bytes)
    → Takes buf (decode_struct depth classes c buf)
unfolding decode_struct
decode_struct_lem zero classes c buf = tt
decode_struct_lem (suc depth) classes c buf =
    Ends-bind _ (λ p. length p.1 < length buf)
      (decode_fields (decode_struct depth classes) classes (classes.fields_of c) buf) _
      (fields_lem (decode_struct depth classes) classes (decode_struct_lem depth classes)
        (classes.fields_of c) buf)
      λ (values, unknown, rest) h.
        Ends-bind _ (λ p. length p.1 < length buf) (arguments classes (classes.fields_of c) values)
          _
          (from_fails (arguments classes (classes.fields_of c) values)
            (arguments-FailsAs IsDecodeError tt classes (classes.fields_of c) values))
          λ vs u. h
