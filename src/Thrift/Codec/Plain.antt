-- ===== src/Thrift/Codec/Plain.antt =====
-- The values that the decoder of thrift.py makes for a type, and what it reads of the packed parts
-- of a value.
use grapec.Base.{
  ℕ, zero, suc, ◌^◌, ◌<◌, ◌≡◌, sym, ap, ◌∙◌, arith, Bool, true, false, [], ◌∷◌, some, none, ◌++◌,
  length, append_assoc,
}
use grapec.Base.Int.{ℤ, pos}
use grapec.Errors.{ok, >>=-eq-ok}
use grapec.Protobuf.Decode.{same_key}
use grapec.Schema.{
  Kind, TypeSpec, scalar, struct, list_of, map_of, one_of, Members, FieldSpec, Fields, by_number,
  pick, Classes, Value, null, obj, list, dict, Values, nil, cons, Entries, empty, entry, elem,
}
use grapec.Struct.{pack_signed, unpack_signed}
use grapec.Struct.RoundTrip.{unpack-pack_signed, InRange}
use grapec.Text.{Str}
use grapec.Text.RoundTrip.{IsText}
use grapec.Thrift.{read, read_binary}
use grapec.Thrift.Decode.{expect}
use grapec.Thrift.Encode.{type_of, encode_binary}
use grapec.Thrift.Message.RoundTrip.{read-append, read_binary-append}
use grapec.Wire.{Bytes}

unfoldable pub add_entry : Entries → Value → Value → Entries
add_entry empty k v = entry k v empty
add_entry (entry k0 v0 es) k v = entry k0 v0 (add_entry es k v)

-- No key of the entries is `k`.
abbrev pub IsNew : Value → Entries → Type 0
IsNew k empty = Unit {0}
IsNew k (entry k0 v0 es) = (same_key k0 k ≡ false) × IsNew k es

-- Every key is new to the entries in front of it and to those of `before`.
abbrev pub IsDict : Entries → Entries → Type 0
IsDict before empty = Unit {0}
IsDict before (entry k v es) = IsNew k before × IsDict (add_entry before k v) es

-- `IsStruct` tells which attributes of a class are read back.
module _ (classes : Classes) (IsStruct : ℕ → Values → Type 0) where
  mutual
    pub data IsPlain : TypeSpec → Value → Type 0 where
      an_int : (w : ℕ) (z : ℤ) → IsPlain (scalar Kind.int w) (Value.int z)
      a_bool : (w : ℕ) (b : Bool) → IsPlain (scalar Kind.bool w) (Value.bool b)
      a_float : (w bits : ℕ) → bits < 2 ^ 64 → IsPlain (scalar Kind.float w) (Value.float bits)
      a_text : (w : ℕ) (s : Str) → IsText s → IsPlain (scalar Kind.str w) (Value.str s)
      a_bytes : (w : ℕ) (b : Bytes) → IsPlain (scalar Kind.bytes w) (Value.bytes b)
      a_member :
          (c : ℕ) (z : ℤ)
          → elem z (classes.values_of c) ≡ true
          → IsPlain (TypeSpec.enum c) (Value.enum c z)
      a_number :
          (c : ℕ) (z : ℤ)
          → elem z (classes.values_of c) ≡ false
          → IsPlain (TypeSpec.enum c) (Value.int z)
      a_struct : (c : ℕ) (vs : Values) → IsStruct c vs → IsPlain (struct c) (obj c vs)
      a_list : (item : TypeSpec) (vs : Values) → ArePlain item vs → IsPlain (list_of item) (list vs)
      a_map :
          (key item : TypeSpec) (es : Entries)
          → PairsPlain key item es
          → IsDict empty es
          → IsPlain (map_of key item) (dict es)

    pub data ArePlain : TypeSpec → Values → Type 0 where
      no_values : (item : TypeSpec) → ArePlain item nil
      one_more :
          (item : TypeSpec) (v : Value) (vs : Values)
          → IsPlain item v
          → ArePlain item vs
          → ArePlain item (cons v vs)

    pub data PairsPlain : TypeSpec → TypeSpec → Entries → Type 0 where
      no_pairs : (key item : TypeSpec) → PairsPlain key item empty
      pair :
          (key item : TypeSpec) (k v : Value) (es : Entries)
          → IsPlain key k
          → IsPlain item v
          → PairsPlain key item es
          → PairsPlain key item (entry k v es)

  -- How an attribute is read back: as the None that is not written, as a value under the number of
  -- its field, or as a value under the number of a member of its union.
  pub data IsAttribute (all : Fields) : FieldSpec → Value → Type 0 where
    unset : (f : FieldSpec) → f.optional ≡ true → IsAttribute all f null
    set :
        (f : FieldSpec) (v : Value)
        → IsPlain f.type v
        → by_number all f.number ≡ some (f, none)
        → IsAttribute all f v
    chosen :
        (f : FieldSpec) (v : Value) (ms : Members) (n : ℕ) (spec : TypeSpec)
        → f.type ≡ one_of ms
        → pick ms v ≡ some (n, spec)
        → IsPlain spec v
        → by_number all n ≡ some (f, some spec)
        → IsAttribute all f v

  pub data AreAttributes (all : Fields) : Fields → Values → Type 0 where
    no_fields : AreAttributes all [] nil
    field :
        (f : FieldSpec) (fs : Fields) (v : Value) (vs : Values)
        → IsAttribute all f v
        → AreAttributes all fs vs
        → AreAttributes all (f ∷ fs) (cons v vs)

pack-InRange : (j : ℕ) (z : ℤ) (out : Bytes) → pack_signed (suc j) z ≡ ok out → InRange (suc j) z
unfolding pack_signed
pack-InRange j z out e = ground arith

pub packed_back :
    (size : ℕ) (z : ℤ) (out : Bytes)
    → 0 < size
    → pack_signed size z ≡ ok out
    → (length out ≡ size) × (unpack_signed size out ≡ z)
packed_back zero z out h e = absurd (omega arith)
packed_back (suc j) z out h e =
    let (bytes, packed, long, back) = unpack-pack_signed j z (pack-InRange j z out e) in
    let same : bytes ≡ out = cc in
    (ap length (sym same) ∙ long, ap (unpack_signed (suc j)) (sym same) ∙ back)

pub read-pack_signed :
    (size : ℕ) (z : ℤ) (out rest : Bytes)
    → 0 < size
    → pack_signed size z ≡ ok out
    → read size (out ++ rest) ≡ ok (z, rest)
read-pack_signed size z out rest h e =
    let (long, back) = packed_back size z out h e in read-append size out rest z long back

pub read_binary-encode_binary :
    (raw out rest : Bytes) → encode_binary raw ≡ ok out → read_binary (out ++ rest) ≡ ok (raw, rest)
unfolding encode_binary
read_binary-encode_binary raw out rest e =
    let (size, packed, same) = >>=-eq-ok (pack_signed 4 (pos (length raw))) _ e in
    let (long, back) = packed_back 4 (pos (length raw)) size (omega arith) packed in
    let eo : size ++ raw ≡ out = ground arith in
    rw (← eo, append_assoc size raw rest) (read_binary-append size raw rest long back)

pub expect_own : (spec : TypeSpec) (t : ℕ) → type_of spec ≡ ok t → expect spec t ≡ ok tt
unfolding expect
expect_own spec t e = ground arith
