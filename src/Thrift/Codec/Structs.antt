-- ===== src/Thrift/Codec/Structs.antt =====
-- Struct instances of thrift.py, written and read.
use grapec.Base.{
  ℕ, zero, suc, ◌<◌, ◌≡◌, refl, sym, ap, ◌∙◌, arith, true, false, List, [], ◌∷◌, ◌++◌, Option, none,
  some, ◌==◌, length, length-append, append_assoc,
}
use grapec.Base.Int.{ℤ, pos}
use grapec.Errors.{Result, ok, ◌>>=◌, >>=-eq-ok}
use grapec.Protobuf.Decode.{Named, get, put}
use grapec.Schema.{
  Kind, TypeSpec, scalar, struct, timestamp, duration, list_of, map_of, one_of, Members, FieldSpec,
  Fields, Classes, Value, null, obj, Values, by_number, pick,
}
use grapec.Struct.{pack_signed, pack_unsigned, be_bytes}
use grapec.Thrift.{read_byte, stop_code}
use grapec.Thrift.Codec.Names.{
  add, collect, Given, AllGiven, AreDistinct, Looks, none_yet, arguments-collect, attributes-Looks,
}
use grapec.Thrift.Codec.Plain.{
  IsPlain, IsAttribute, AreAttributes, expect_own, packed_back, read-pack_signed,
}
use grapec.Thrift.Codec.Values.{value-Back}
use grapec.Thrift.Decode.{
  entry_of, decode_value, decode_one, decode_loop, decode_fields, decode_struct,
}
use grapec.Thrift.Encode.{
  type_of, int_type, header, encode_value, headed, present, encode_field, encode_fields, value_of,
  attributes, encode_struct,
}
use grapec.Wire.{Bytes, Read}

type_range : (spec : TypeSpec) (t : ℕ) → type_of spec ≡ ok t → (0 < t) × (t < 256)
unfolding type_of int_type
type_range (scalar Kind.int w) t e = ground arith
type_range (scalar Kind.bool w) t e = ground arith
type_range (scalar Kind.float w) t e = ground arith
type_range (scalar Kind.str w) t e = ground arith
type_range (scalar Kind.bytes w) t e = ground arith
type_range (TypeSpec.enum c) t e = ground arith
type_range (struct c) t e = ground arith
type_range timestamp t e = absurd (ground arith)
type_range duration t e = absurd (ground arith)
type_range (list_of item) t e = ground arith
type_range (map_of key item) t e = ground arith
type_range (one_of ms) t e = absurd (ground arith)

header_parts :
    (t n : ℕ) (front : Bytes)
    → t < 256
    → header t n ≡ ok front
    → (second : Bytes) × (pack_signed 2 (pos n) ≡ ok second) × (front ≡ t ∷ second)
unfolding header pack_unsigned be_bytes
header_parts t n front h e =
    let (first, e1, more) = >>=-eq-ok (pack_unsigned 1 t) _ e in
    let (second, e2, same) = >>=-eq-ok (pack_signed 2 (pos n)) _ more in (second, e2, ground arith)

module _ (nested_out : ℕ → Values → Result Bytes) (nested : ℕ → Bytes → Read Value)
    (classes : Classes) (IsStruct : ℕ → Values → Type 0)
    (back : (c : ℕ) (vs : Values)
      → IsStruct c vs
      → (out rest : Bytes) → nested_out c vs ≡ ok out
      → nested c (out ++ rest) ≡ ok (obj c vs, rest)) where
  -- A value that is read back is written under its header, and is not None.
  pub plain_cases :
      (f : FieldSpec) (n : ℕ) (spec : TypeSpec) (v : Value) (values : Named)
      → IsPlain classes IsStruct spec v
      → (encode_field nested_out f v ≡ present nested_out f.number f.type v)
        × (present nested_out n spec v ≡ headed nested_out n spec v)
        × (add f v values ≡ put f.name v values)
        × Given f v
  unfolding encode_field present add
  plain_cases f n spec v values (IsPlain.an_int w z) = (refl, refl, refl, tt)
  plain_cases f n spec v values (IsPlain.a_bool w b) = (refl, refl, refl, tt)
  plain_cases f n spec v values (IsPlain.a_float w bits h) = (refl, refl, refl, tt)
  plain_cases f n spec v values (IsPlain.a_text w s h) = (refl, refl, refl, tt)
  plain_cases f n spec v values (IsPlain.a_bytes w b) = (refl, refl, refl, tt)
  plain_cases f n spec v values (IsPlain.a_member c z h) = (refl, refl, refl, tt)
  plain_cases f n spec v values (IsPlain.a_number c z h) = (refl, refl, refl, tt)
  plain_cases f n spec v values (IsPlain.a_struct c vs h) = (refl, refl, refl, tt)
  plain_cases f n spec v values (IsPlain.a_list item vs h) = (refl, refl, refl, tt)
  plain_cases f n spec v values (IsPlain.a_map key item es h d) = (refl, refl, refl, tt)

  -- One round of the loop, over a value under its header.
  abbrev Round : Fields → FieldSpec → Value → Bytes → Type 0
  Round all f v out =
      (0 < length out)
      × ((fuel : ℕ) (rest : Bytes) (values : Named) (unknown : List ℤ)
          → decode_loop nested classes (suc fuel) all (out ++ rest) values unknown
            ≡ decode_loop nested classes fuel all rest (put f.name v values) unknown)

  headed-Round :
      (all : Fields) (f : FieldSpec) (n : ℕ) (spec : TypeSpec) (member : Option TypeSpec)
      (v : Value) (out : Bytes)
      → IsPlain classes IsStruct spec v
      → by_number all n ≡ some (f, member)
      → ((buf : Bytes) (t : ℕ) (values : Named) (unknown : List ℤ)
          → decode_one nested classes all (pos n) t buf values unknown ≡ (
              decode_value nested classes spec buf t >>= λ (w, rest).
              ok (put f.name w values, unknown, rest)))
      → headed nested_out n spec v ≡ ok out
      → Round all f v out
  unfolding headed decode_loop decode_value read_byte
  headed-Round all f n spec member v out plain found reads e =
      let (t, e1, more1) = >>=-eq-ok (type_of spec) _ e in
      let (front, e2, more2) = >>=-eq-ok (header t n) _ more1 in
      let (body, e3, same) = >>=-eq-ok (encode_value nested_out spec v) _ more2 in
      let (positive, small) = type_range spec t e1 in
      let (second, e4, split) = header_parts t n front small e2 in
      let (long, packed) = packed_back 2 (pos n) second (omega arith) e4 in
      let eo : t ∷ (second ++ body) ≡ out = cc in
      let go : (t == stop_code) ≡ false = ground arith in
      (
        rw (← eo) (omega arith),
        λ fuel rest values unknown.
            (rw
              (
                ← eo,
                append_assoc second body rest,
                go,
                read-pack_signed 2 (pos n) second (body ++ rest) (omega arith) e4,
                reads (body ++ rest) t values unknown,
                expect_own spec t e1,
                value-Back nested_out nested classes IsStruct back spec v plain t e1 body rest e3,
              )
              refl),
      )

  plain_one :
      (all : Fields) (f : FieldSpec) (n t : ℕ) (buf : Bytes) (values : Named) (unknown : List ℤ)
      → by_number all n ≡ some (f, none)
      → decode_one nested classes all (pos n) t buf values unknown ≡ (
          decode_value nested classes f.type buf t >>= λ (w, rest).
          ok (put f.name w values, unknown, rest))
  unfolding decode_one entry_of
  plain_one all f n t buf values unknown found = rw (decode_one, found) refl

  member_one :
      (all : Fields) (f : FieldSpec) (spec : TypeSpec) (n t : ℕ) (buf : Bytes) (values : Named)
      (unknown : List ℤ)
      → by_number all n ≡ some (f, some spec)
      → decode_one nested classes all (pos n) t buf values unknown ≡ (
          decode_value nested classes spec buf t >>= λ (w, rest).
          ok (put f.name w values, unknown, rest))
  unfolding decode_one entry_of
  member_one all f spec n t buf values unknown found = rw (decode_one, found) refl

  union_headed :
      (f : FieldSpec) (ms : Members) (n : ℕ) (spec : TypeSpec) (v : Value)
      → f.type ≡ one_of ms
      → pick ms v ≡ some (n, spec)
      → present nested_out f.number f.type v ≡ headed nested_out n spec v
  unfolding present
  union_headed f ms n spec v union picked = rw (union, present, picked) refl

  -- What the loop does with the bytes of an attribute, and what the constructor gets.
  abbrev Passed : Fields → FieldSpec → Value → Bytes → Type 0
  Passed all f v out =
      (fuel : ℕ) (rest : Bytes) (values : Named) (unknown : List ℤ)
      → length (out ++ rest) < suc fuel
      → (used : ℕ) × (length rest < used)
        × (decode_loop nested classes (suc fuel) all (out ++ rest) values unknown
            ≡ decode_loop nested classes used all rest (add f v values) unknown)

  left_over :
      (all : Fields) (f : FieldSpec) (n : ℕ) (spec : TypeSpec) (v : Value) (out : Bytes)
      → IsPlain classes IsStruct spec v
      → Round all f v out
      → Passed all f v out
  left_over all f n spec v out plain (positive, round) fuel rest values unknown enough =
      let (e1, e2, added, given) = plain_cases f n spec v values plain in
      (
        fuel,
        omega (arith, length-append out rest),
        round fuel rest values unknown
            ∙ ap (λ t. decode_loop nested classes fuel all rest t unknown) (sym added),
      )

  unset_back :
      (all : Fields) (f : FieldSpec) (out : Bytes)
      → f.optional ≡ true
      → encode_field nested_out f null ≡ ok out
      → Passed all f null out
  unfolding encode_field add
  unset_back all f out optional e fuel rest values unknown enough =
      let eo : [] ≡ out = ground arith in
      (suc fuel, omega (arith, ap length eo, length-append out rest), rw (← eo) refl)

  attribute_back :
      (all : Fields) (f : FieldSpec) (v : Value) (out : Bytes)
      → IsAttribute classes IsStruct all f v
      → encode_field nested_out f v ≡ ok out
      → Passed all f v out × Given f v
  attribute_back all f v out (IsAttribute.unset g optional) e =
      (unset_back all f out optional e, optional)
  attribute_back all f v out (IsAttribute.set g w plain found) e =
      let (e1, e2, added, given) = plain_cases f f.number f.type v [] plain in
      (
        left_over all f f.number f.type v out plain (
            headed-Round all f f.number f.type none v out plain found
              (λ buf t values unknown. plain_one all f f.number t buf values unknown found)
              (sym e2 ∙ sym e1 ∙ e)),
        given,
      )
  attribute_back all f v out (IsAttribute.chosen g w ms n spec union picked plain found) e =
      let (e1, e2, added, given) = plain_cases f n spec v [] plain in
      (
        left_over all f n spec v out plain (
            headed-Round all f n spec (some spec) v out plain found
              (λ buf t values unknown. member_one all f spec n t buf values unknown found)
              (sym (union_headed f ms n spec v union picked) ∙ sym e1 ∙ e)),
        given,
      )

  first_field :
      (f : FieldSpec) (fs : Fields) (v : Value) (named : Named)
      → get f.name named ≡ some v
      → encode_fields nested_out (f ∷ fs) named ≡ (
          encode_field nested_out f v >>= λ head.
          (encode_fields nested_out fs named >>= λ tail. ok (head ++ tail)))
  unfolding encode_fields value_of
  first_field f fs v named found = rw (found, value_of) refl

  -- The loop over all that `encode_fields` wrote.
  pub fields_back :
      (all fs : Fields) (vs : Values) (named : Named) (out : Bytes)
      → AreAttributes classes IsStruct all fs vs
      → Looks named fs vs
      → encode_fields nested_out fs named ≡ ok out
      → (fuel : ℕ) (rest : Bytes) (values : Named) (unknown : List ℤ) → length (out ++ rest) < fuel
      → (decode_loop nested classes fuel all (out ++ rest) values unknown
          ≡ ok (collect fs vs values, unknown, rest))
        × AllGiven fs vs
  unfolding encode_fields decode_loop collect read_byte
  fields_back all fs vs named out attrs looks e zero rest values unknown enough =
      absurd (omega arith)
  fields_back all fs vs named out AreAttributes.no_fields looks e (suc fuel) rest values unknown
        enough =
      let eo : stop_code ∷ [] ≡ out = cc in (rw (← eo) refl, tt)
  fields_back all gs ws named out (AreAttributes.field f fs v vs attr attrs) looks e (suc fuel) rest
        values unknown enough =
      let start = sym (first_field f fs v named looks.0) ∙ e in
      let (head, e2, more) = >>=-eq-ok (encode_field nested_out f v) _ start in
      let (tail, e3, joined) = >>=-eq-ok (encode_fields nested_out fs named) _ more in
      let eo : head ++ tail ≡ out = cc in
      let (passed, given) = attribute_back all f v head attr e2 in
      let (used, enough2, step) = passed fuel (tail ++ rest) values unknown (
        omega (
          arith,
          ap length eo,
          length-append out rest,
          length-append head tail,
          length-append head (tail ++ rest),
          length-append tail rest,
        )) in
      let (loop, all_given) =
        fields_back all fs vs named tail attrs looks.1 e3 used rest (add f v values) unknown
          enough2 in
      (rw (← eo, append_assoc head tail rest) (step ∙ loop), (given, all_given))

-- The attributes that an instance of a class is read back with, nested no deeper than `depth`: the
-- names of the fields differ, and each attribute is read back.
unfoldable pub IsStruct : ℕ → Classes → ℕ → Values → Type 0
IsStruct zero classes c vs = ⊥
IsStruct (suc depth) classes c vs =
    AreDistinct (classes.fields_of c)
    × AreAttributes classes (IsStruct depth classes) (classes.fields_of c) (classes.fields_of c) vs

-- A struct instance that fits its class, with nesting up to the depth, whose field names are
-- distinct, whose dicts have distinct keys and whose oneof values pick their own member, is read
-- back from its bytes as it was written, with what follows left over.
pub decode_struct-encode_struct :
    (depth : ℕ) (classes : Classes) (c : ℕ) (vs : Values) (out rest : Bytes)
    → IsStruct depth classes c vs
    → encode_struct depth classes c vs ≡ ok out
    → decode_struct depth classes c (out ++ rest) ≡ ok (obj c vs, rest)
unfolding IsStruct encode_struct decode_struct decode_fields
decode_struct-encode_struct zero classes c vs out rest plain e = absurd plain
decode_struct-encode_struct (suc depth) classes c vs out rest (distinct, attrs) e =
    let fields = classes.fields_of c in
    let (named, e1, more) = >>=-eq-ok (attributes fields vs) _ e in
    let (loop, given) =
      fields_back (encode_struct depth classes) (decode_struct depth classes) classes
        (IsStruct depth classes)
        (λ d ws h bytes left f. decode_struct-encode_struct depth classes d ws bytes left h f)
        fields fields vs named out attrs (attributes-Looks fields vs named distinct e1) more
        (suc (length (out ++ rest))) rest [] [] (omega arith) in
    rw (loop, arguments-collect classes fields vs [] given distinct (none_yet fields)) refl
