-- ===== src/Thrift/Schemas/RoundTrip.antt =====
-- `encode` and `decode` of thrift.py.
use grapec.Base.{ℕ, zero, suc, ◌≡◌, refl, subst, true, [], append-nil}
use grapec.Errors.{ok, err, ◌and_then◌}
use grapec.Schema.{Classes, obj, Values}
use grapec.Thrift.Codec.Structs.{IsStruct, decode_struct-encode_struct}
use grapec.Thrift.Decode.{decode_struct}
use grapec.Thrift.Encode.{encode_struct}
use grapec.Thrift.Schemas.{Checked, Outcome, contains, check_schema, whole, encode, decode}
use grapec.Thrift.Schemas.Closed.{check_schema-good}
use grapec.Wire.{Bytes}

then-eq-ok :
    {A : Type 0} (first : Outcome (Unit {0})) (next : Checked → Outcome A) (a : A) (u : Checked)
    → (first and_then next) ≡ (ok a, u)
    → (t : Checked) × (first ≡ (ok tt, t)) × (next t ≡ (ok a, u))
then-eq-ok (ok tt, t) next a u e = (t, refl, e)
then-eq-ok (err fault, t) next a u e = cc

check_again :
    (depth : ℕ) (classes : Classes) (c : ℕ) (vs : Values) (t : Checked)
    → IsStruct depth classes c vs
    → contains c t ≡ true
    → check_schema depth classes c t ≡ (ok tt, t)
unfolding IsStruct check_schema
check_again zero classes c vs t plain there = absurd plain
check_again (suc depth) classes c vs t plain there = rw there refl

-- A struct instance that is read back and that `encode` encodes is what `decode` then returns for
-- its class and these bytes, and the class stays checked.
pub decode-encode :
    (classes : Classes) (c : ℕ) (vs : Values) (s t : Checked) (out : Bytes)
    → IsStruct classes.recursion_limit classes c vs
    → encode classes (obj c vs) s ≡ (ok out, t)
    → decode classes c out t ≡ (ok (obj c vs), t)
unfolding encode decode whole
decode-encode classes c vs s t out plain e =
    let (u, checked, written) =
      then-eq-ok (check_schema classes.recursion_limit classes c s) _ out t e in
    let (there, keeps) = check_schema-good classes classes.recursion_limit c s u checked in
    let same : u ≡ t = cc in
    let encoded : encode_struct classes.recursion_limit classes c vs ≡ ok out = cc in
    let again =
      check_again classes.recursion_limit classes c vs t plain
        (subst (λ w. contains c w ≡ true) same there) in
    let read =
      subst (λ b. decode_struct classes.recursion_limit classes c b ≡ ok (obj c vs, []))
        (append-nil out)
        (decode_struct-encode_struct classes.recursion_limit classes c vs out [] plain encoded) in
    rw (again, read) refl
