-- ===== src/Thrift/Schemas/Closed.antt =====
-- What `check_schema` of thrift.py rules out, in a class and in all that it reaches.
use grapec.Base.{
  ℕ, zero, suc, ◌≡◌, refl, sym, subst, arith, true, false, [], ◌∷◌, ==_iff, Bool-cases, ◌⊎◌, inl,
  inr, All,
}
use grapec.Errors.{ok, err, ◌and_then◌}
use grapec.Schema.{
  TypeSpec, scalar, struct, timestamp, duration, list_of, map_of, one_of, Members, no_members,
  member, FieldSpec, Fields, Classes,
}
use grapec.Thrift.Schemas.{
  Checked, Outcome, contains, handled, numbers_too_large, check_type, check_members, check_fields,
  check_schema,
}

-- A type that thrift has, whose structs are in `s`.
abbrev mutual
  pub TypeFits : Checked → TypeSpec → Type 0
  TypeFits s timestamp = ⊥
  TypeFits s duration = ⊥
  TypeFits s (list_of item) = TypeFits s item
  TypeFits s (map_of key item) = TypeFits s key × TypeFits s item
  TypeFits s (one_of ms) = MembersFit s ms
  TypeFits s (struct c) = contains c s ≡ true
  TypeFits s (scalar k w) = Unit {0}
  TypeFits s (TypeSpec.enum c) = Unit {0}

  pub MembersFit : Checked → Members → Type 0
  MembersFit s no_members = Unit {0}
  MembersFit s (member n spec ms) = TypeFits s spec × MembersFit s ms

abbrev pub FieldFits : Checked → FieldSpec → Type 0
FieldFits s f = (numbers_too_large f.number f.type ≡ false) × TypeFits s f.type

abbrev pub ClassFits : Classes → Checked → ℕ → Type 0
ClassFits classes s c = All (FieldFits s) (classes.fields_of c)

-- Every class in `s` that is not in `pending` fits.
abbrev pub IsClosed : Classes → Checked → Checked → Type 0
IsClosed classes pending s =
    (c : ℕ) → contains c s ≡ true → (contains c pending ≡ true) ⊎ ClassFits classes s c

abbrev Grows : Checked → Checked → Type 0
Grows s t = (c : ℕ) → contains c s ≡ true → contains c t ≡ true

module _ (s t : Checked) (grows : Grows s t) where
  mutual
    TypeFits-Grows : (spec : TypeSpec) → TypeFits s spec → TypeFits t spec
    TypeFits-Grows timestamp h = h
    TypeFits-Grows duration h = h
    TypeFits-Grows (list_of item) h = TypeFits-Grows item h
    TypeFits-Grows (map_of key item) h = (TypeFits-Grows key h.0, TypeFits-Grows item h.1)
    TypeFits-Grows (one_of ms) h = MembersFit-Grows ms h
    TypeFits-Grows (struct c) h = grows c h
    TypeFits-Grows (scalar k w) h = h
    TypeFits-Grows (TypeSpec.enum c) h = h

    MembersFit-Grows : (ms : Members) → MembersFit s ms → MembersFit t ms
    MembersFit-Grows no_members h = h
    MembersFit-Grows (member n spec ms) h = (TypeFits-Grows spec h.0, MembersFit-Grows ms h.1)

  All-Grows : (fs : Fields) → All (FieldFits s) fs → All (FieldFits t) fs
  All-Grows [] h = tt
  All-Grows (f ∷ fs) h = ((h.0.0, TypeFits-Grows f.type h.0.1), All-Grows fs h.1)

module _ (classes : Classes) where
  -- What a successful check of anything does to the set.
  abbrev Keeps : Checked → Checked → Type 0
  Keeps s t = Grows s t × ((p : Checked) → IsClosed classes p s → IsClosed classes p t)

  Keeps-refl : (s : Checked) → Keeps s s
  Keeps-refl s = (λ c h. h, λ p h. h)

  Keeps-trans : (s t u : Checked) → Keeps s t → Keeps t u → Keeps s u
  Keeps-trans s t u h k = (λ c i. k.0 c (h.0 c i), λ p i. k.1 p (h.1 p i))

  and_then-eq-ok :
      (first : Outcome (Unit {0})) (next : Checked → Outcome (Unit {0})) (u : Checked)
      → (first and_then next) ≡ (ok tt, u)
      → (t : Checked) × (first ≡ (ok tt, t)) × (next t ≡ (ok tt, u))
  and_then-eq-ok (ok tt, t) next u e = (t, refl, e)
  and_then-eq-ok (err fault, t) next u e = cc

  module _ (nested : ℕ → Checked → Outcome (Unit {0}))
      (good : (c : ℕ) (s t : Checked)
        → nested c s ≡ (ok tt, t)
        → (contains c t ≡ true) × Keeps s t) where
    mutual
      unfolding check_type

      type_good :
          (spec : TypeSpec) (s t : Checked)
          → check_type nested spec s ≡ (ok tt, t)
          → TypeFits t spec × Keeps s t
      type_good timestamp s t e = cc
      type_good duration s t e = cc
      type_good (list_of item) s t e = type_good item s t e
      type_good (map_of key item) s u e =
          let (t, e1, e2) = and_then-eq-ok (check_type nested key s) (check_type nested item) u e in
          let (fits1, keeps1) = type_good key s t e1 in
          let (fits2, keeps2) = type_good item t u e2 in
          ((TypeFits-Grows t u keeps2.0 key fits1, fits2), Keeps-trans s t u keeps1 keeps2)
      type_good (one_of ms) s t e = members_good ms s t e
      type_good (struct c) s t e = good c s t e
      type_good (scalar k w) s t e =
          let same : s ≡ t = cc in (tt, subst (Keeps s) same (Keeps-refl s))
      type_good (TypeSpec.enum c) s t e =
          let same : s ≡ t = cc in (tt, subst (Keeps s) same (Keeps-refl s))

      members_good :
          (ms : Members) (s t : Checked)
          → check_members nested ms s ≡ (ok tt, t)
          → MembersFit t ms × Keeps s t
      members_good no_members s t e =
          let same : s ≡ t = cc in (tt, subst (Keeps s) same (Keeps-refl s))
      members_good (member n spec ms) s u e =
          let (t, e1, e2) =
            and_then-eq-ok (check_type nested spec s) (check_members nested ms) u e in
          let (fits1, keeps1) = type_good spec s t e1 in
          let (fits2, keeps2) = members_good ms t u e2 in
          ((TypeFits-Grows t u keeps2.0 spec fits1, fits2), Keeps-trans s t u keeps1 keeps2)

    fields_good :
        (fs : Fields) (s t : Checked)
        → check_fields nested fs s ≡ (ok tt, t)
        → All (FieldFits t) fs × Keeps s t
    unfolding check_fields
    fields_good [] s t e = let same : s ≡ t = cc in (tt, subst (Keeps s) same (Keeps-refl s))
    fields_good (f ∷ fs) s u e = elim (Bool-cases (numbers_too_large f.number f.type)) [
      | inl large ↦ absurd (ground arith)
      | inr small ↦
          let walked : (check_type nested f.type s and_then λ t. check_fields nested fs t)
              ≡ (ok tt, u) =
            ground arith in
          let (t, e1, e2) =
            and_then-eq-ok (check_type nested f.type s) (check_fields nested fs) u walked in
          let (fits1, keeps1) = type_good f.type s t e1 in
          let (fits2, keeps2) = fields_good fs t u e2 in
          (
            ((small, TypeFits-Grows t u keeps2.0 f.type fits1), fits2),
            Keeps-trans s t u keeps1 keeps2,
          )
    ]

  handled-eq-ok :
      (c : ℕ) (o : Outcome (Unit {0})) (t : Checked) → handled c o ≡ (ok tt, t) → o ≡ (ok tt, t)
  unfolding handled
  handled-eq-ok c (ok tt, s) t e = e
  handled-eq-ok c (err e', s) t e = absurd (ground arith)

  self_in : (c : ℕ) (s : Checked) → contains c (c ∷ s) ≡ true
  unfolding contains
  self_in c s = rw ((==_iff c c).1 refl) refl

  cons_in : (d c : ℕ) (s : Checked) → contains d s ≡ true → contains d (c ∷ s) ≡ true
  unfolding contains
  cons_in d c s h = ground arith

  in_cons : (d c : ℕ) (s : Checked) → contains d (c ∷ s) ≡ true → (d ≡ c) ⊎ (contains d s ≡ true)
  unfolding contains
  in_cons d c s h = ground arith

  -- A class that its walk finds good leaves the pending ones.
  close_class :
      (c : ℕ) (s t p : Checked)
      → Keeps (c ∷ s) t
      → ClassFits classes t c
      → IsClosed classes p s
      → IsClosed classes p t
  close_class c s t p keeps fits closed d h = elim (keeps.1 (c ∷ p) opened d h) [
    | inr fine ↦ inr fine
    | inl waits ↦ elim (in_cons d c p waits) [
      | inr waiting ↦ inl waiting
      | inl same ↦ inr (subst (ClassFits classes t) (sym same) fits)
    ]
  ]
    where
      opened : IsClosed classes (c ∷ p) (c ∷ s)
      opened d h = elim (in_cons d c s h) [
        | inl same ↦ inl (rw same (self_in c p))
        | inr old ↦ elim (closed d old) [
          | inl waiting ↦ inl (cons_in d c p waiting)
          | inr fine ↦ inr (All-Grows s (c ∷ s) (λ e i. cons_in e c s i) (classes.fields_of d) fine)
        ]
      ]

  pub check_schema-good :
      (depth c : ℕ) (s t : Checked)
      → check_schema depth classes c s ≡ (ok tt, t)
      → (contains c t ≡ true) × Keeps s t
  unfolding check_schema
  check_schema-good zero c s t e = cc
  check_schema-good (suc depth) c s t e = elim (Bool-cases (contains c s)) [
    | inl old ↦
        let same : s ≡ t = ground arith in
        subst (λ u. (contains c u ≡ true) × Keeps s u) same (old, Keeps-refl s)
    | inr new ↦
        let walked : handled c
              (check_fields (check_schema depth classes) (classes.fields_of c) (c ∷ s))
            ≡ (ok tt, t) =
          ground arith in
        let (fits, keeps) =
          fields_good (check_schema depth classes) (check_schema-good depth) (classes.fields_of c)
            (c ∷ s) t (handled-eq-ok c _ t walked) in
        (
          keeps.0 c (self_in c s),
          (λ d h. keeps.0 d (cons_in d c s h), λ p closed. close_class c s t p keeps fits closed),
        )
  ]

none_in : (d : ℕ) → ¬ (contains d [] ≡ true)
unfolding contains
none_in d h = cc

-- Where check_schema accepts a class, and every class that was checked before had only checked
-- classes, small field ids and types that thrift has, the same holds of every checked class
-- afterwards, and the class is one of them.
pub check_schema-IsClosed :
    (classes : Classes) (c : ℕ) (s t : Checked)
    → IsClosed classes [] s
    → check_schema classes.recursion_limit classes c s ≡ (ok tt, t)
    → (contains c t ≡ true) × ((d : ℕ) → contains d t ≡ true → ClassFits classes t d)
check_schema-IsClosed classes c s t closed e =
    let (there, keeps) = check_schema-good classes classes.recursion_limit c s t e in
    (
      there,
      λ d h. elim (keeps.1 [] closed d h) [
        | inl waits ↦ absurd (none_in d waits)
        | inr fits ↦ fits
      ],
    )
