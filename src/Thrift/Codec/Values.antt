-- ===== src/Thrift/Codec/Values.antt =====
-- Values of thrift.py, written and read.
use grapec.Base.{
  ℕ, ◌^◌, ◌<◌, ◌≡◌, refl, sym, ap, ◌∙◌, arith, Bool, true, false, [], ◌∷◌, ◌++◌, append_assoc,
}
use grapec.Base.Int.{ℤ, pos}
use grapec.Errors.{Result, ok, ◌>>=◌, >>=-eq-ok}
use grapec.Protobuf.Decode.{append_value, set_item}
use grapec.Protobuf.RoundTrip.{fits_64_lem}
use grapec.Protobuf.Scalars.{check_int, check_float, fits_64}
use grapec.Schema.{
  Kind, TypeSpec, scalar, Classes, Value, obj, Values, nil, cons, Entries, empty, entry, elem,
  enum_value,
}
use grapec.Struct.{be_bytes, pack_signed, unpack_unsigned}
use grapec.Struct.RoundTrip.{length-be_bytes, be_value_lem}
use grapec.Text.{encode}
use grapec.Text.RoundTrip.{decode-encode}
use grapec.Thrift.{read, read_byte, check_count}
use grapec.Thrift.Codec.Plain.{
  IsPlain, ArePlain, PairsPlain, IsNew, IsDict, add_entry, read-pack_signed,
  read_binary-encode_binary, expect_own,
}
use grapec.Thrift.Decode.{expect, read_double, decode_each, decode_pairs, decode_typed}
use grapec.Thrift.Encode.{
  type_of, int_type, int_size, encode_int, encode_enum, encode_bool, encode_each, encode_pairs,
  encode_value, count_values, count_entries,
}
use grapec.Thrift.Message.RoundTrip.{need-append, take-append}
use grapec.Wire.{Bytes, Read}

-- The values of a list behind those of another.
unfoldable pub join : Values → Values → Values
join nil ws = ws
join (cons v vs) ws = cons v (join vs ws)

join-append_value :
    (vs : Values) (v : Value) (ws : Values) → join (append_value vs v) ws ≡ join vs (cons v ws)
unfolding join append_value
join-append_value nil v ws = refl
join-append_value (cons w vs) v ws = ap (cons w) (join-append_value vs v ws)

join-nil : (vs : Values) → join vs nil ≡ vs
unfolding join
join-nil nil = refl
join-nil (cons v vs) = ap (cons v) (join-nil vs)

unfoldable pub merge : Entries → Entries → Entries
merge empty fs = fs
merge (entry k v es) fs = entry k v (merge es fs)

merge-add_entry :
    (es : Entries) (k v : Value) (fs : Entries)
    → merge (add_entry es k v) fs ≡ merge es (entry k v fs)
unfolding merge add_entry
merge-add_entry empty k v fs = refl
merge-add_entry (entry k0 v0 es) k v fs = ap (entry k0 v0) (merge-add_entry es k v fs)

merge-empty : (es : Entries) → merge es empty ≡ es
unfolding merge
merge-empty empty = refl
merge-empty (entry k v es) = ap (entry k v) (merge-empty es)

set_item-IsNew : (es : Entries) (k v : Value) → IsNew k es → set_item es k v ≡ add_entry es k v
unfolding set_item add_entry
set_item-IsNew empty k v h = refl
set_item-IsNew (entry k0 v0 es) k v h = rw (h.0, set_item-IsNew es k v h.1) refl

-- A reader that gives back what was written.
abbrev pub Reads : (Bytes → Read Value) → (Value → Result Bytes) → Value → Type 0
Reads reader writer v = (out rest : Bytes) → writer v ≡ ok out → reader (out ++ rest) ≡ ok (v, rest)

read_double_back :
    (bits : ℕ) (rest : Bytes)
    → bits < 2 ^ 64
    → read_double (be_bytes 8 bits ++ rest) ≡ ok (bits, rest)
unfolding read_double unpack_unsigned
read_double_back bits rest h = rw (
  need-append (be_bytes 8 bits) rest 8 (length-be_bytes 8 bits),
  take-append (be_bytes 8 bits) rest 8 (length-be_bytes 8 bits),
  be_value_lem 8 bits (omega arith),
)

int_size_pos : (t size : ℕ) → int_size t ≡ ok size → 0 < size
unfolding int_size
int_size_pos t size e = ground arith

module _ (nested_out : ℕ → Values → Result Bytes) (nested : ℕ → Bytes → Read Value)
    (classes : Classes) (IsStruct : ℕ → Values → Type 0)
    (back : (c : ℕ) (vs : Values)
      → IsStruct c vs
      → (out rest : Bytes) → nested_out c vs ≡ ok out
      → nested c (out ++ rest) ≡ ok (obj c vs, rest)) where
  -- What stands in the place of `_decode_value` in the loops over a list and a map.
  abbrev item_reader : TypeSpec → ℕ → Bytes → Read Value
  item_reader spec t b = (expect spec t >>= λ u. decode_typed nested classes spec b t)

  abbrev Back : TypeSpec → Value → Type 0
  Back spec v =
      (t : ℕ)
      → type_of spec ≡ ok t
      → Reads (λ b. decode_typed nested classes spec b t) (encode_value nested_out spec) v

  item-Back :
      (spec : TypeSpec) (v : Value) (t : ℕ)
      → Back spec v
      → type_of spec ≡ ok t
      → Reads (item_reader spec t) (encode_value nested_out spec) v
  item-Back spec v t h et out rest e = rw (expect_own spec t et) (h t et out rest e)

  int-Back : (w : ℕ) (z : ℤ) → Back (scalar Kind.int w) (Value.int z)
  unfolding type_of encode_value check_int decode_typed encode_int
  int-Back w z t et out rest e =
      let (z', fits, more) = >>=-eq-ok (fits_64 z) _ e in
      let (same, range) = fits_64_lem z z' fits in
      let packed : (int_type w >>= λ ttype. (int_size ttype >>= λ size. pack_signed size z))
          ≡ ok out =
        ground arith in
      let (t', e1, more1) = >>=-eq-ok (int_type w) _ packed in
      let (size, e2, e3) = >>=-eq-ok (int_size t') _ more1 in
      let sized : int_size t ≡ ok size = cc in
      rw (sized, read-pack_signed size z out rest (int_size_pos t' size e2) e3) refl

  four_back :
      (z : ℤ) (out rest : Bytes) → encode_enum z ≡ ok out → read 4 (out ++ rest) ≡ ok (z, rest)
  unfolding encode_enum
  four_back z out rest e = read-pack_signed 4 z out rest (omega arith) (ground arith)

  enum-Back :
      (c : ℕ) (z : ℤ) (v : Value)
      → check_int v ≡ fits_64 z
      → enum_value classes c z ≡ v
      → Back (TypeSpec.enum c) v
  unfolding type_of encode_value decode_typed
  enum-Back c z v checked same t et out rest e =
      let (z', fits, more) = >>=-eq-ok (check_int v) _ e in
      let (ez, range) = fits_64_lem z z' (sym checked ∙ fits) in
      let written : encode_enum z ≡ ok out = cc in rw (four_back z out rest written, same) refl

  member-Back :
      (c : ℕ) (z : ℤ)
      → elem z (classes.values_of c) ≡ true
      → Back (TypeSpec.enum c) (Value.enum c z)
  unfolding check_int enum_value
  member-Back c z h = enum-Back c z (Value.enum c z) refl (rw h refl)

  number-Back :
      (c : ℕ) (z : ℤ) → elem z (classes.values_of c) ≡ false → Back (TypeSpec.enum c) (Value.int z)
  unfolding check_int enum_value
  number-Back c z h = enum-Back c z (Value.int z) refl (rw h refl)

  bool-Back : (w : ℕ) (b : Bool) → Back (scalar Kind.bool w) (Value.bool b)
  unfolding type_of encode_value decode_typed encode_bool read_byte
  bool-Back w true t et out rest e = let eo : 1 ∷ [] ≡ out = cc in rw (← eo) refl
  bool-Back w false t et out rest e = let eo : 0 ∷ [] ≡ out = cc in rw (← eo) refl

  float-Back : (w bits : ℕ) → bits < 2 ^ 64 → Back (scalar Kind.float w) (Value.float bits)
  unfolding type_of encode_value decode_typed check_float
  float-Back w bits h t et out rest e =
      let eo : be_bytes 8 bits ≡ out = cc in rw (← eo, read_double_back bits rest h) refl

  sized :
      (n : ℕ) (size rest : Bytes)
      → pack_signed 4 (pos n) ≡ ok size
      → read 4 (size ++ rest) ≡ ok (pos n, rest)
  sized n size rest e = read-pack_signed 4 (pos n) size rest (omega arith) e

  mutual
    unfolding type_of encode_value decode_typed encode_each decode_each encode_pairs decode_pairs
        count_values count_entries join merge read_byte check_count

    pub value-Back : (spec : TypeSpec) (v : Value) → IsPlain classes IsStruct spec v → Back spec v
    value-Back spec v (IsPlain.an_int w z) = int-Back w z
    value-Back spec v (IsPlain.a_bool w b) = bool-Back w b
    value-Back spec v (IsPlain.a_float w bits h) = float-Back w bits h
    value-Back spec v (IsPlain.a_text w s h) = λ t et out rest e.
        (let (raw, encoded, more) = >>=-eq-ok (encode s) _ e in
          let (raw', e', again) = decode-encode s h in
          let same : raw' ≡ raw = cc in
          rw (read_binary-encode_binary raw out rest more, ← same, again) refl)
    value-Back spec v (IsPlain.a_bytes w b) =
        λ t et out rest e. (rw (read_binary-encode_binary b out rest e) refl)
    value-Back spec v (IsPlain.a_member c z h) = member-Back c z h
    value-Back spec v (IsPlain.a_number c z h) = number-Back c z h
    value-Back spec v (IsPlain.a_struct c vs h) =
        λ t et out rest e. (back c vs h out rest (ground arith))
    value-Back spec v (IsPlain.a_list item vs ps) = λ t et out rest e.
        (let (etype, e1, more1) = >>=-eq-ok (type_of item) _ e in
          let (size, e2, more2) = >>=-eq-ok (pack_signed 4 (pos (count_values vs))) _ more1 in
          let (body, e3, same) =
            >>=-eq-ok (encode_each (encode_value nested_out item) vs) _ more2 in
          let eo : etype ∷ (size ++ body) ≡ out = cc in
          rw
            (
              ← eo,
              append_assoc size body rest,
              sized (count_values vs) size (body ++ rest) e2,
              each_back item vs ps etype e1 nil body rest e3,
            )
            refl)
    value-Back spec v (IsPlain.a_map key item es ps d) = λ t et out rest e.
        (let (ktype, e1, more1) = >>=-eq-ok (type_of key) _ e in
          let (vtype, e2, more2) = >>=-eq-ok (type_of item) _ more1 in
          let (size, e3, more3) = >>=-eq-ok (pack_signed 4 (pos (count_entries es))) _ more2 in
          let (body, e4, same) =
            >>=-eq-ok (encode_pairs (encode_value nested_out key) (encode_value nested_out item) es)
              _ more3 in
          let eo : ktype ∷ (vtype ∷ (size ++ body)) ≡ out = cc in
          rw
            (
              ← eo,
              append_assoc size body rest,
              sized (count_entries es) size (body ++ rest) e3,
              pairs_back key item es ps ktype vtype e1 e2 empty d body rest e4,
            )
            refl)

    each_back :
        (item : TypeSpec) (vs : Values)
        → ArePlain classes IsStruct item vs
        → (t : ℕ) → type_of item ≡ ok t
        → (acc : Values) (out rest : Bytes) → encode_each (encode_value nested_out item) vs ≡ ok out
        → decode_each (item_reader item t) (count_values vs) (out ++ rest) acc
          ≡ ok (join acc vs, rest)
    each_back spec vs (ArePlain.no_values item) =
        λ t et acc out rest e. (let eo : [] ≡ out = cc in rw (← eo, join-nil acc) refl)
    each_back spec ws (ArePlain.one_more item v vs p ps) = λ t et acc out rest e.
        (let (head, e1, more) = >>=-eq-ok (encode_value nested_out item v) _ e in
          let (tail, e2, same) = >>=-eq-ok (encode_each (encode_value nested_out item) vs) _ more in
          let eo : head ++ tail ≡ out = cc in
          rw
            (
              ← eo,
              append_assoc head tail rest,
              item-Back item v t (value-Back item v p) et head (tail ++ rest) e1,
              each_back item vs ps t et (append_value acc v) tail rest e2,
              join-append_value acc v vs,
            )
            refl)

    pairs_back :
        (key item : TypeSpec) (es : Entries)
        → PairsPlain classes IsStruct key item es
        → (kt vt : ℕ) → type_of key ≡ ok kt
        → type_of item ≡ ok vt
        → (acc : Entries) → IsDict acc es
        → (out rest : Bytes)
        → encode_pairs (encode_value nested_out key) (encode_value nested_out item) es ≡ ok out
        → decode_pairs
            (item_reader key kt)
            (item_reader item vt)
            (count_entries es)
            (out ++ rest)
            acc
          ≡ ok (merge acc es, rest)
    pairs_back k i es (PairsPlain.no_pairs key item) =
        λ kt vt ek ev acc d out rest e. (let eo : [] ≡ out = cc in rw (← eo, merge-empty acc) refl)
    pairs_back ks is fs (PairsPlain.pair key item k v es pk pv ps) = λ kt vt ek ev acc d out rest e.
        (let (first, e1, more1) = >>=-eq-ok (encode_value nested_out key k) _ e in
          let (second, e2, more2) = >>=-eq-ok (encode_value nested_out item v) _ more1 in
          let (tail, e3, same) =
            >>=-eq-ok (encode_pairs (encode_value nested_out key) (encode_value nested_out item) es)
              _ more2 in
          let eo : first ++ (second ++ tail) ≡ out = cc in
          rw
            (
              ← eo,
              append_assoc first (second ++ tail) rest,
              item-Back key k kt (value-Back key k pk) ek first ((second ++ tail) ++ rest) e1,
              append_assoc second tail rest,
              item-Back item v vt (value-Back item v pv) ev second (tail ++ rest) e2,
              set_item-IsNew acc k v d.0,
              pairs_back key item es ps kt vt ek ev (add_entry acc k v) d.1 tail rest e3,
              merge-add_entry acc k v es,
            )
            refl)
