-- ===== src/Thrift/Codec/Examples.antt =====
-- Runs of the struct codec and the calls of thrift.py, and instances of what is proved about them.
use grapec.Base.{
  ℕ, ◌≡◌, refl, arith, true, false, [], ◌∷◌, ◌++◌, none, some, ◌==◌, if◌then◌else◌, inl,
}
use grapec.Base.Int.{pos, negsuc}
use grapec.Errors.{FailsAs, ok, err, schema_error, no_thrift_type}
use grapec.Protobuf.Decode.{get}
use grapec.Schema.{
  Kind, scalar, struct, timestamp, list_of, FieldSpec, Fields, Classes, Value, null, obj, list,
  Values, nil, cons, by_number, numbers_field,
}
use grapec.Struct.{pack_signed, pack_unsigned, be_bytes}
use grapec.Text.{same_text, encode}
use grapec.Text.Digits.{digits}
use grapec.Thrift.Calls.{
  MethodSpec, State, method_fields, cached, result_fields, exception_fields, decode_result,
  returned, raised, success_field, exception_field,
}
use grapec.Thrift.Calls.Results.{
  Sets, IsReplyError, decode_result-returned, decode_result-raised, decode_result-FailsAs,
}
use grapec.Thrift.Codec.Ends.{Takes, decode_struct_lem}
use grapec.Thrift.Codec.Plain.{IsPlain, ArePlain, IsAttribute, AreAttributes}
use grapec.Thrift.Codec.Structs.{IsStruct, decode_struct-encode_struct}
use grapec.Thrift.Decode.{decode_struct}
use grapec.Thrift.Encode.{
  encode_struct, encode_fields, encode_field, value_of, attributes, present, headed, header,
  encode_value, encode_int, encode_each, encode_binary, type_of, int_type, int_size, count_values,
  is_container,
}
use grapec.Thrift.Schemas.{
  contains, discard, numbers_too_large, check_type, check_fields, handled, check_schema,
}
use grapec.Thrift.Schemas.Closed.{ClassFits, check_schema-IsClosed}
use grapec.Wire.{Bytes}

-- class 1, Node: `x: Annotated[int, I16]`, `tags: list[str]` and `parent: Node | None`; class 2 holds
-- a class 3 and a datetime, class 3 an optional class 2.
abbrev field_x : FieldSpec
field_x = record { name = b'x' ∷ []; number = 1; type = scalar Kind.int 16; optional = false }

abbrev field_tags : FieldSpec
field_tags = record {
  name = b't' ∷ [];
  number = 2;
  type = list_of (scalar Kind.str 64);
  optional = false;
}

abbrev field_parent : FieldSpec
field_parent = record { name = b'p' ∷ []; number = 3; type = struct 1; optional = true }

abbrev field_three : FieldSpec
field_three = record { name = b'b' ∷ []; number = 1; type = struct 3; optional = false }

abbrev field_time : FieldSpec
field_time = record { name = b'c' ∷ []; number = 2; type = timestamp; optional = false }

abbrev field_two : FieldSpec
field_two = record { name = b'a' ∷ []; number = 1; type = struct 2; optional = true }

abbrev fields_of : ℕ → Fields
fields_of c =
    if c == 1
    then field_x ∷ field_tags ∷ field_parent ∷ []
    else if c == 2
    then field_three ∷ field_time ∷ []
    else field_two ∷ []

abbrev classes : Classes
classes = record { fields_of = fields_of; values_of = λ c. []; recursion_limit = 3 }

abbrev leaf : Values
leaf = cons (Value.int (negsuc 1)) (cons (list (cons (Value.str (b'h' ∷ [])) nil)) (cons null nil))

abbrev leaf_bytes : Bytes
leaf_bytes =
    6 ∷ 0 ∷ 1 ∷ 0xff ∷ 0xfe ∷ 15 ∷ 0 ∷ 2 ∷ 11 ∷ 0 ∷ 0 ∷ 0 ∷ 1 ∷ 0 ∷ 0 ∷ 0 ∷ 1 ∷ b'h' ∷ 0 ∷ []

encode_leaf_run : encode_struct 3 classes 1 leaf ≡ ok leaf_bytes
unfolding encode_struct encode_fields encode_field value_of attributes present headed header
    encode_value encode_int encode_each encode_binary type_of int_type int_size count_values
    pack_signed pack_unsigned be_bytes encode is_container same_text
encode_leaf_run = refl

leaf-IsStruct : IsStruct 3 classes 1 leaf
unfolding IsStruct by_number numbers_field same_text
leaf-IsStruct = (
  ((refl, (refl, tt)), ((refl, tt), (tt, tt))),
  AreAttributes.field _ _ _ _ (IsAttribute.set _ _ (IsPlain.an_int 16 (negsuc 1)) refl) (
      AreAttributes.field _ _ _ _
        (IsAttribute.set _ _
          (IsPlain.a_list _ _ (
            ArePlain.one_more _ _ _
              (IsPlain.a_text 64 (b'h' ∷ []) ((omega arith, inl (omega arith)), tt))
              (ArePlain.no_values _)))
          refl)
        (AreAttributes.field _ _ _ _ (IsAttribute.unset _ refl) AreAttributes.no_fields)),
)

decode_struct-encode_struct_example :
    decode_struct 3 classes 1 (leaf_bytes ++ (7 ∷ [])) ≡ ok (obj 1 leaf, 7 ∷ [])
decode_struct-encode_struct_example =
    decode_struct-encode_struct 3 classes 1 leaf leaf_bytes (7 ∷ []) leaf-IsStruct encode_leaf_run

decode_struct_lem_example : Takes (6 ∷ 0 ∷ []) (decode_struct 3 classes 1 (6 ∷ 0 ∷ []))
decode_struct_lem_example = decode_struct_lem 3 classes 1 (6 ∷ 0 ∷ [])

-- A class that fails leaves behind the class it holds, which then passes although it holds the one
-- that failed.
check_two_run : check_schema 3 classes 2 [] ≡ (err (schema_error no_thrift_type), 3 ∷ [])
unfolding check_schema check_fields check_type numbers_too_large handled contains discard
check_two_run = refl

check_three_run : check_schema 3 classes 3 (3 ∷ []) ≡ (ok tt, 3 ∷ [])
unfolding check_schema contains
check_three_run = refl

check_one_run : check_schema 3 classes 1 [] ≡ (ok tt, 1 ∷ [])
unfolding check_schema check_fields check_type numbers_too_large handled contains discard
check_one_run = refl

nothing_checked : (c : ℕ) → ¬ (contains c [] ≡ true)
unfolding contains
nothing_checked c h = cc

check_schema-IsClosed_example :
    (contains 1 (1 ∷ []) ≡ true)
    × ((d : ℕ) → contains d (1 ∷ []) ≡ true → ClassFits classes (1 ∷ []) d)
check_schema-IsClosed_example =
    check_schema-IsClosed classes 1 [] (1 ∷ []) (λ c h. absurd (nothing_checked c h)) check_one_run

abbrev method : MethodSpec
method = record { key = 0; params = []; returns = some (scalar Kind.int 32); raises = (1, 1) ∷ [] }

abbrev no_state : State
no_state = record { checked = []; methods = [] }

abbrev state : State
state = record { checked = 1 ∷ []; methods = (0, [], result_fields method) ∷ [] }

method_run : method_fields classes method state ≡ (ok ([], result_fields method), state)
unfolding method_fields cached
method_run = refl

abbrev nine_bytes : Bytes
nine_bytes = 8 ∷ 0 ∷ 0 ∷ 0 ∷ 0 ∷ 0 ∷ 9 ∷ 0 ∷ []

success_found : by_number (result_fields method) 0 ≡ some (success_field (scalar Kind.int 32), none)
unfolding by_number numbers_field result_fields exception_fields
success_found = refl

nine_set : Sets classes (success_field (scalar Kind.int 32)) (Value.int (pos 9)) nine_bytes
unfolding encode_fields encode_field value_of present headed header encode_value encode_int type_of
    int_type int_size pack_signed pack_unsigned be_bytes is_container same_text get
nine_set = refl

decode_result-returned_example :
    decode_result classes method nine_bytes state ≡ (ok (returned (Value.int (pos 9))), state)
decode_result-returned_example =
    decode_result-returned classes method [] (scalar Kind.int 32) (Value.int (pos 9)) nine_bytes
      state state method_run refl success_found (IsPlain.an_int 32 (pos 9)) nine_set

abbrev raised_bytes : Bytes
raised_bytes = (12 ∷ 0 ∷ 1 ∷ []) ++ (leaf_bytes ++ (0 ∷ []))

exception_found : by_number (result_fields method) 1 ≡ some (exception_field 1 1, none)
unfolding by_number numbers_field result_fields exception_fields digits
exception_found = refl

leaf_set : Sets classes (exception_field 1 1) (obj 1 leaf) raised_bytes
unfolding encode_struct encode_fields encode_field value_of attributes present headed header
    encode_value encode_int encode_each encode_binary type_of int_type int_size count_values
    pack_signed pack_unsigned be_bytes encode is_container same_text get digits
leaf_set = refl

decode_result-raised_example :
    decode_result classes method raised_bytes state ≡ (ok (raised (obj 1 leaf)), state)
decode_result-raised_example =
    decode_result-raised classes method [] 1 1 leaf raised_bytes state state method_run
      (omega arith) exception_found leaf-IsStruct leaf_set

decode_result-FailsAs_example :
    FailsAs IsReplyError (decode_result classes method (8 ∷ 0 ∷ []) state).0
decode_result-FailsAs_example =
    decode_result-FailsAs classes method [] (result_fields method) (8 ∷ 0 ∷ []) state state
      method_run
