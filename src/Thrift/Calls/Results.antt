-- ===== src/Thrift/Calls/Results.antt =====
-- What `decode_result` of thrift.py makes of the reply of a server.
use grapec.Base.{
  ℕ, suc, ◌<◌, ◌≡◌, refl, ap, subst, ◌∙◌, arith, List, [], ◌∷◌, ◌++◌, append-nil, Option, none,
  some, Option-cases, ◌==◌, length, Bool-cases, ◌⊎◌, inl, inr,
}
use grapec.Base.Int.{ℤ}
use grapec.Errors.{
  Result, ok, err, Error, thrift_error, unicode_error, rpc_error, recursion_error, assertion_error,
  key_error, FailsAs, FailsAs-bind,
}
use grapec.Protobuf.Decode.{Named, get}
use grapec.Schema.{
  TypeSpec, scalar, timestamp, duration, list_of, map_of, one_of, struct, FieldSpec, Fields,
  Classes, Value, obj, Values, nil, cons, by_number, numbers_field,
}
use grapec.Text.{same_text}
use grapec.Thrift.Calls.{
  MethodSpec, State, success, success_field, exception_field, exception_fields, result_fields,
  method_fields, returned, raised, malformed, read_result, without_success, first_raised, answer,
  decode_result,
}
use grapec.Thrift.Codec.Ends.{Ends, Ends-bind, fields_lem, decode_struct_lem}
use grapec.Thrift.Codec.Names.{add, collect, same_text_self}
use grapec.Thrift.Codec.Plain.{IsPlain, IsAttribute, AreAttributes}
use grapec.Thrift.Codec.Structs.{IsStruct, plain_cases, fields_back, decode_struct-encode_struct}
use grapec.Thrift.Decode.{decode_loop, decode_fields, decode_struct}
use grapec.Thrift.Encode.{encode_fields, encode_struct}
use grapec.Wire.{Bytes}

module _ (classes : Classes) where
  abbrev out_struct : ℕ → Values → Result Bytes
  out_struct = encode_struct classes.recursion_limit classes

  abbrev IsInstance : ℕ → Values → Type 0
  IsInstance = IsStruct classes.recursion_limit classes

  back :
      (c : ℕ) (vs : Values)
      → IsInstance c vs
      → (out rest : Bytes) → out_struct c vs ≡ ok out
      → decode_struct classes.recursion_limit classes c (out ++ rest) ≡ ok (obj c vs, rest)
  back c vs plain out rest e =
      decode_struct-encode_struct classes.recursion_limit classes c vs out rest plain e

  -- The bytes of a result struct in which one field is set.
  abbrev pub Sets : FieldSpec → Value → Bytes → Type 0
  Sets f v body = encode_fields out_struct (f ∷ []) ((f.name, v) ∷ []) ≡ ok body

  named : (f : FieldSpec) (v : Value) → get f.name ((f.name, v) ∷ []) ≡ some v
  unfolding get
  named f v = rw (same_text_self f.name) refl

  read_one :
      (result : Fields) (f : FieldSpec) (v : Value) (body : Bytes)
      → IsAttribute classes IsInstance result f v
      → Sets f v body
      → read_result classes result body ≡ ok (add f v [], [])
  unfolding read_result decode_fields collect
  read_one result f v body attr sets =
      let whole = body ++ [] in
      let (loop, given) =
        fields_back out_struct (decode_struct classes.recursion_limit classes) classes IsInstance
          back result (f ∷ []) (cons v nil) ((f.name, v) ∷ []) body
          (AreAttributes.field f [] v nil attr AreAttributes.no_fields) (named f v, tt) sets
          (suc (length whole)) [] [] [] (omega arith) in
      let read =
        subst
          (λ b.
            decode_loop (decode_struct classes.recursion_limit classes) classes (suc (length b))
              result b [] []
            ≡ ok (add f v [], [], []))
          (append-nil body) loop in
      rw read refl

  -- The answer, given what was read.
  from_read :
      (spec : MethodSpec) (args result : Fields) (body : Bytes) (s t : State) (values : Named)
      → method_fields classes spec s ≡ (ok (args, result), t)
      → read_result classes result body ≡ ok (values, [])
      → decode_result classes spec body s ≡ (answer spec result values [], t)
  unfolding decode_result malformed
  from_read spec args result body s t values fields read = rw (fields, read) refl

  no_exception :
      (rs : List (ℕ × ℕ)) (v : Value)
      → first_raised (exception_fields rs) ((success, v) ∷ []) ≡ none
  unfolding first_raised exception_fields get same_text
  no_exception [] v = refl
  no_exception ((n, c) ∷ rs) v = no_exception rs v

  plain_added :
      (f : FieldSpec) (spec : TypeSpec) (v : Value)
      → IsPlain classes IsInstance spec v
      → add f v [] ≡ (f.name, v) ∷ []
  plain_added f spec v plain =
      (plain_cases out_struct (decode_struct classes.recursion_limit classes) classes IsInstance
        back f 0 spec v [] plain).2

  success_answers :
      (spec : MethodSpec) (t : TypeSpec) (v : Value)
      → spec.returns ≡ some t
      → answer spec (result_fields spec) ((success, v) ∷ []) [] ≡ ok (returned v)
  unfolding answer result_fields without_success
  success_answers spec t v has =
      rw (answer, has, no_exception spec.raises v, has, named (success_field t) v) refl

  -- Where the body of a reply is the result struct with one value for the declared result, which
  -- fits its type, decode_result returns that value.
  pub decode_result-returned :
      (spec : MethodSpec) (args : Fields) (t : TypeSpec) (v : Value) (body : Bytes) (s u : State)
      → method_fields classes spec s ≡ (ok (args, result_fields spec), u)
      → spec.returns ≡ some t
      → by_number (result_fields spec) 0 ≡ some (success_field t, none)
      → IsPlain classes IsInstance t v
      → Sets (success_field t) v body
      → decode_result classes spec body s ≡ (ok (returned v), u)
  decode_result-returned spec args t v body s u fields has found plain sets =
      let read =
        read_one (result_fields spec) (success_field t) v body
          (IsAttribute.set (success_field t) v plain found) sets in
      let added = plain_added (success_field t) t v plain in
      from_read spec args (result_fields spec) body s u ((success, v) ∷ []) fields
        (rw (← added) read)
      ∙ ap (λ r. (r, u)) (success_answers spec t v has)

  -- The index finds what the loop over the exceptions finds.
  numbers_field-eq :
      (n : ℕ) (g f : FieldSpec) (spec : TypeSpec) (m : Option TypeSpec)
      → numbers_field n g spec ≡ some (f, m)
      → g ≡ f
  unfolding numbers_field
  numbers_field-eq n g f (one_of ms) m e = ground arith
  numbers_field-eq n g f (scalar k w) m e = ground arith
  numbers_field-eq n g f (TypeSpec.enum c) m e = ground arith
  numbers_field-eq n g f (struct c) m e = ground arith
  numbers_field-eq n g f timestamp m e = ground arith
  numbers_field-eq n g f duration m e = ground arith
  numbers_field-eq n g f (list_of item) m e = ground arith
  numbers_field-eq n g f (map_of key item) m e = ground arith

  later_or_own :
      (g : FieldSpec) (gs : Fields) (n : ℕ) (f : FieldSpec) (m : Option TypeSpec)
      → by_number (g ∷ gs) n ≡ some (f, m)
      → (by_number gs n ≡ some (f, m)) ⊎ (g ≡ f)
  unfolding by_number
  later_or_own g gs n f m e = elim (Option-cases (by_number gs n)) [
    | inr (found, later) ↦ inl (ground arith)
    | inl none_later ↦ inr (numbers_field-eq n g f g.type m (ground arith))
  ]

  in_index :
      (fs : Fields) (n : ℕ) (f : FieldSpec) (m : Option TypeSpec) (c : ℕ) (vs : Values)
      → by_number fs n ≡ some (f, m)
      → first_raised fs ((f.name, obj c vs) ∷ []) ≡ some (obj c vs)
  unfolding first_raised get
  in_index [] n f m c vs e = absurd (unfold by_number in cc)
  in_index (g ∷ gs) n f m c vs e = elim (later_or_own g gs n f m e) [
    | inl later ↦
        let ih = in_index gs n f m c vs later in
        elim (Bool-cases (same_text f.name g.name)) [
          | inl hit ↦ rw (first_raised, hit) refl
          | inr miss ↦ rw (first_raised, miss) ih
        ]
    | inr own ↦ rw (first_raised, own, same_text_self f.name) refl
  ]

  -- The first field is left out when it holds the value, so not where an exception is found.
  without_first :
      (fs : Fields) (n : ℕ) (f : FieldSpec) (m : Option TypeSpec)
      → 0 < f.number
      → by_number fs n ≡ some (f, m)
      → by_number (without_success fs) n ≡ some (f, m)
  unfolding without_success
  without_first [] n f m h e = e
  without_first (g ∷ gs) n f m h e = elim (Bool-cases (g.number == 0)) [
    | inr kept ↦ rw kept e
    | inl first ↦ elim (later_or_own g gs n f m e) [
      | inl later ↦ rw first later
      | inr own ↦
          let same : g.number ≡ f.number = ap (λ (h : FieldSpec). h.number) own in
          absurd (ground arith)
    ]
  ]

  answer_raised :
      (spec : MethodSpec) (result : Fields) (values : Named) (others : List ℤ) (v : Value)
      → first_raised (without_success result) values ≡ some v
      → answer spec result values others ≡ ok (raised v)
  unfolding answer
  answer_raised spec result values others v h = ground arith

  -- Where the body of a reply is the result struct with one declared exception, whose instance
  -- fits its class and whose number is not 0, decode_result raises that exception.
  pub decode_result-raised :
      (spec : MethodSpec) (args : Fields) (n c : ℕ) (vs : Values) (body : Bytes) (s u : State)
      → method_fields classes spec s ≡ (ok (args, result_fields spec), u)
      → 0 < n
      → by_number (result_fields spec) n ≡ some (exception_field n c, none)
      → IsStruct classes.recursion_limit classes c vs
      → Sets (exception_field n c) (obj c vs) body
      → decode_result classes spec body s ≡ (ok (raised (obj c vs)), u)
  decode_result-raised spec args n c vs body s u fields positive found plain sets =
      let field = exception_field n c in
      let read =
        read_one (result_fields spec) field (obj c vs) body
          (IsAttribute.set field (obj c vs) (IsPlain.a_struct c vs plain) found) sets in
      let added = plain_added field (struct c) (obj c vs) (IsPlain.a_struct c vs plain) in
      from_read spec args (result_fields spec) body s u ((field.name, obj c vs) ∷ []) fields
        (rw (← added) read)
      ∙ ap (λ r. (r, u))
          (answer_raised spec (result_fields spec) ((field.name, obj c vs) ∷ []) [] (obj c vs) (
            in_index (without_success (result_fields spec)) n field none c vs
              (without_first (result_fields spec) n field none positive found)))

-- What a call may raise for a reply: RpcError, and what its schema or its depth allow.
abbrev pub IsReplyError : Error → Type 0
IsReplyError (rpc_error code) = Unit {0}
IsReplyError recursion_error = Unit {0}
IsReplyError assertion_error = Unit {0}
IsReplyError key_error = Unit {0}
IsReplyError _ = ⊥

malformed_lem :
    {A : Type 0} (Q : A → Type 0) (r : Result A) → Ends Q r → FailsAs IsReplyError (malformed r)
unfolding malformed
malformed_lem Q (ok a) h = tt
malformed_lem Q (err (thrift_error e)) h = tt
malformed_lem Q (err unicode_error) h = tt
malformed_lem Q (err recursion_error) h = tt
malformed_lem Q (err assertion_error) h = tt
malformed_lem Q (err key_error) h = tt
malformed_lem Q (err _) h = elim h [ ]

answer_lem :
    (spec : MethodSpec) (result : Fields) (values : Named) (others : List ℤ)
    → FailsAs IsReplyError (answer spec result values others)
unfolding answer
answer_lem spec result values others = ground arith

read_result_lem :
    (classes : Classes) (result : Fields) (body : Bytes)
    → Ends (λ p. Unit {0}) (read_result classes result body)
unfolding read_result
read_result_lem classes result body =
    Ends-bind _ (λ p. Unit {0})
      (decode_fields (decode_struct classes.recursion_limit classes) classes result body) _
      (fields_lem (decode_struct classes.recursion_limit classes) classes
        (decode_struct_lem classes.recursion_limit classes) result body)
      λ (values, others, rest) h. ground arith

-- For a method that passes its checks, decoding a reply of any bytes ends with an answer or
-- RpcError, or with RecursionError, AssertionError or KeyError.
pub decode_result-FailsAs :
    (classes : Classes) (spec : MethodSpec) (args result : Fields) (body : Bytes) (s u : State)
    → method_fields classes spec s ≡ (ok (args, result), u)
    → FailsAs IsReplyError (decode_result classes spec body s).0
unfolding decode_result
decode_result-FailsAs classes spec args result body s u fields = rw fields (
    FailsAs-bind IsReplyError (malformed (read_result classes result body)) _
      (malformed_lem (λ p. Unit {0}) (read_result classes result body)
        (read_result_lem classes result body))
      λ (values, others) e. answer_lem spec result values others)
