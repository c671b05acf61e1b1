-- ===== src/Thrift/Codec/Names.antt =====
-- The values of a struct by the names of its fields, collected and taken apart.
use grapec.Base.{◌≡◌, refl, subst, ◌∙◌, arith, true, false, [], ◌∷◌, none, some, All}
use grapec.Errors.{ok, >>=-eq-ok}
use grapec.Protobuf.Decode.{Named, get, put, arguments}
use grapec.Schema.{FieldSpec, Fields, Classes, Value, null, Values, nil, cons}
use grapec.Text.{Str, same_text}
use grapec.Thrift.Encode.{attributes}

pub same_text_comm : (a b : Str) → same_text a b ≡ same_text b a
unfolding same_text
same_text_comm [] [] = refl
same_text_comm [] (b ∷ bs) = refl
same_text_comm (a ∷ as') [] = refl
same_text_comm (a ∷ as') (b ∷ bs) = ground (arith, same_text_comm as' bs)

pub same_text_self : (a : Str) → same_text a a ≡ true
unfolding same_text
same_text_self [] = refl
same_text_self (a ∷ as') = ground (arith, same_text_self as')

-- No field of the list has the name.
abbrev pub IsAbsent : Str → Fields → Type 0
IsAbsent name = All (λ f. same_text name f.name ≡ false)

abbrev pub AreDistinct : Fields → Type 0
AreDistinct [] = Unit {0}
AreDistinct (f ∷ fs) = IsAbsent f.name fs × AreDistinct fs

-- An attribute that is None is not written.
unfoldable pub add : FieldSpec → Value → Named → Named
add f null values = values
add f v values = put f.name v values

unfoldable pub collect : Fields → Values → Named → Named
unfolding add
collect [] vs values = values
collect (f ∷ fs) nil values = values
collect (f ∷ fs) (cons v vs) values = collect fs vs (add f v values)

get_skips :
    (name : Str) (f : FieldSpec) (v : Value) (values : Named)
    → same_text name f.name ≡ false
    → get name ((f.name, v) ∷ values) ≡ get name values
unfolding get
get_skips name f v values h = rw (same_text_comm f.name name, h) refl

get-add :
    (name : Str) (f : FieldSpec) (v : Value) (values : Named)
    → same_text name f.name ≡ false
    → get name (add f v values) ≡ get name values
unfolding add
get-add name f null values h = refl
get-add name f v values h = get_skips name f v values h

get-collect :
    (name : Str) (fs : Fields) (vs : Values) (values : Named)
    → IsAbsent name fs
    → get name (collect fs vs values) ≡ get name values
unfolding collect
get-collect name [] vs values h = refl
get-collect name (f ∷ fs) nil values h = refl
get-collect name (f ∷ fs) (cons v vs) values h =
    get-collect name fs vs (add f v values) h.1 ∙ get-add name f v values h.0

-- What the constructor gets for a field: the value, or None where it may be.
abbrev pub Given : FieldSpec → Value → Type 0
Given f null = f.optional ≡ true
Given f v = Unit {0}

abbrev pub AllGiven : Fields → Values → Type 0
AllGiven [] nil = Unit {0}
AllGiven (f ∷ fs) (cons v vs) = Given f v × AllGiven fs vs
AllGiven [] (cons v vs) = ⊥
AllGiven (f ∷ fs) nil = ⊥

abbrev NoneYet : Named → Fields → Type 0
NoneYet values = All (λ f. get f.name values ≡ none)

pub none_yet : (fs : Fields) → NoneYet [] fs
unfolding get
none_yet [] = tt
none_yet (f ∷ fs) = (refl, none_yet fs)

NoneYet-add :
    (f : FieldSpec) (v : Value) (values : Named) (fs : Fields)
    → IsAbsent f.name fs
    → NoneYet values fs
    → NoneYet (add f v values) fs
NoneYet-add f v values [] h k = tt
NoneYet-add f v values (g ∷ fs) h k = (
  get-add g.name f v values (same_text_comm g.name f.name ∙ h.0) ∙ k.0,
  NoneYet-add f v values fs h.1 k.1,
)

module _ (classes : Classes) where
  one_argument :
      (f : FieldSpec) (v : Value) (fs : Fields) (vs rest : Values) (values found : Named)
      → Given f v
      → get f.name values ≡ none
      → get f.name found ≡ get f.name (add f v values)
      → arguments classes fs found ≡ ok rest
      → arguments classes (f ∷ fs) found ≡ ok (cons v rest)
  unfolding arguments add get
  one_argument f null fs vs rest values found given fresh e more = rw (e, fresh, given, more) refl
  one_argument f v fs vs rest values found given fresh e more =
      rw (e, same_text_self f.name, more) refl

  pub arguments-collect :
      (fs : Fields) (vs : Values) (values : Named)
      → AllGiven fs vs
      → AreDistinct fs
      → NoneYet values fs
      → arguments classes fs (collect fs vs values) ≡ ok vs
  unfolding collect
  arguments-collect [] nil values given distinct fresh = unfold arguments in refl
  arguments-collect [] (cons v vs) values given distinct fresh = absurd given
  arguments-collect (f ∷ fs) nil values given distinct fresh = absurd given
  arguments-collect (f ∷ fs) (cons v vs) values given distinct fresh =
      one_argument f v fs vs vs values (collect fs vs (add f v values)) given.0 fresh.0
        (get-collect f.name fs vs (add f v values) distinct.0)
        (arguments-collect fs vs (add f v values) given.1 distinct.1
          (NoneYet-add f v values fs distinct.0 fresh.1))

-- The attributes by name.
abbrev pub Looks : Named → Fields → Values → Type 0
Looks values [] nil = Unit {0}
Looks values (f ∷ fs) (cons v vs) = (get f.name values ≡ some v) × Looks values fs vs
Looks values [] (cons v vs) = Unit {0}
Looks values (f ∷ fs) nil = Unit {0}

Looks-cons :
    (f : FieldSpec) (v : Value) (values : Named) (fs : Fields) (vs : Values)
    → IsAbsent f.name fs
    → Looks values fs vs
    → Looks ((f.name, v) ∷ values) fs vs
Looks-cons f v values [] nil h k = tt
Looks-cons f v values [] (cons w vs) h k = tt
Looks-cons f v values (g ∷ fs) nil h k = tt
Looks-cons f v values (g ∷ fs) (cons w vs) h k = (
  get_skips g.name f v values (same_text_comm g.name f.name ∙ h.0) ∙ k.0,
  Looks-cons f v values fs vs h.1 k.1,
)

pub attributes-Looks :
    (fs : Fields) (vs : Values) (values : Named)
    → AreDistinct fs
    → attributes fs vs ≡ ok values
    → Looks values fs vs
unfolding attributes
attributes-Looks [] nil values distinct e = tt
attributes-Looks [] (cons v vs) values distinct e = tt
attributes-Looks (f ∷ fs) nil values distinct e = tt
attributes-Looks (f ∷ fs) (cons v vs) values distinct e =
    let (rest, e1, e2) = >>=-eq-ok (attributes fs vs) _ e in
    let same : (f.name, v) ∷ rest ≡ values = cc in
    let looks : Looks ((f.name, v) ∷ rest) (f ∷ fs) (cons v vs) = (
      found f v rest,
      Looks-cons f v rest fs vs distinct.0 (attributes-Looks fs vs rest distinct.1 e1),
    ) in
    subst (λ named. Looks named (f ∷ fs) (cons v vs)) same looks
  where
    found : (f : FieldSpec) (v : Value) (rest : Named) → get f.name ((f.name, v) ∷ rest) ≡ some v
    found f v rest = unfold get in rw (same_text_self f.name) refl
