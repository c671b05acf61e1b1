-- ===== src/Protobuf/Encode.antt =====
-- The encoding half of protobuf.py. What Python appends to `out` is what a function returns; an
-- error drops it with the whole message.
use grapec.Base.{ℕ, zero, suc, Bool, false, [], ◌∷◌, ◌++◌, none, some, ◌==◌, if◌then◌else◌}
use grapec.Base.Int.{pos, eqb_ℤ}
use grapec.Errors.{
  Result, ok, err, ◌>>=◌, encode_error, type_error, attribute_error, recursion_error,
}
use grapec.Protobuf.Scalars.{
  check_int, encode_leaf, packed_item, framed, is_packed, is_zero, truthy,
}
use grapec.Schema.{
  TypeSpec, scalar, struct, list_of, map_of, one_of, Fields, Classes, Value, null, obj, list, dict,
  Values, nil, cons, Entries, empty, entry, pick,
}
use grapec.Text.{Str}
use grapec.Wire.{Bytes}

-- How the items of a list are written: in one packed field, or each in a field of its own.
pub data Style : Type 0 where
  packed : TypeSpec → Style
  separate : ℕ → TypeSpec → Style

-- An item that is no struct instance.
pub item_leaf : Style → Value → Result Bytes
item_leaf (packed item) v = packed_item item v
item_leaf (separate n item) v = encode_leaf n item v

-- `for item in value` over the characters of a text and the numbers of bytes.
pub in_text : Style → Str → Result Bytes
in_text style [] = ok []
in_text style (c ∷ cs) = do
  head ← item_leaf style (Value.str (c ∷ []))
  tail ← in_text style cs
  ok (head ++ tail)

pub in_bytes : Style → Bytes → Result Bytes
in_bytes style [] = ok []
in_bytes style (b ∷ bs) = do
  head ← item_leaf style (Value.int (pos b))
  tail ← in_bytes style bs
  ok (head ++ tail)

-- The functions below stand in a section for `_encode_struct`, which they call for a struct inside:
-- its fields and its values.
module _ (nested : Fields → Values → Result Bytes) (classes : Classes) where
  unfoldable pub encode_single : ℕ → TypeSpec → Value → Result Bytes
  encode_single n (struct c) (obj d vs) =
      let body = nested (classes.fields_of c) vs in
      if c == d then (body >>= λ raw. ok (framed n raw)) else err encode_error
  encode_single n spec v = encode_leaf n spec v

  pub encode_item : Style → Value → Result Bytes
  unfolding encode_single
  encode_item (packed item) v = packed_item item v
  encode_item (separate n item) v = encode_single n item v

  pub encode_items : Style → Values → Result Bytes
  unfolding encode_item
  encode_items style nil = ok []
  encode_items style (cons v vs) = do
    head ← encode_item style v
    tail ← encode_items style vs
    ok (head ++ tail)

  pub encode_keys : Style → Entries → Result Bytes
  unfolding encode_item
  encode_keys style empty = ok []
  encode_keys style (entry k v es) = do
    head ← encode_item style k
    tail ← encode_keys style es
    ok (head ++ tail)

  -- `for item in value`, where None counts as no items.
  pub in_list : Style → Value → Result Bytes
  unfolding encode_items encode_keys in_text in_bytes
  in_list style null = ok []
  in_list style (list vs) = encode_items style vs
  in_list style (dict es) = encode_keys style es
  in_list style (Value.str s) = in_text style s
  in_list style (Value.bytes b) = in_bytes style b
  in_list style v = err type_error

  pub encode_entries : ℕ → TypeSpec → TypeSpec → Entries → Result Bytes
  unfolding encode_single
  encode_entries n key item empty = ok []
  encode_entries n key item (entry k v es) = do
    first ← encode_single 1 key k
    second ← encode_single 2 item v
    rest ← encode_entries n key item es
    ok (framed n (first ++ second) ++ rest)

  -- `(value or {}).items()`
  pub in_map : ℕ → TypeSpec → TypeSpec → Value → Result Bytes
  unfolding encode_entries
  in_map n key item (dict es) = encode_entries n key item es
  in_map n key item v = err attribute_error

  -- The rest of `_encode_field` on a value other than None.
  pub present : ℕ → Bool → TypeSpec → Value → Result Bytes
  unfolding encode_single
  present n optional (one_of ms) v = elim (pick ms v) [
    | none ↦ err encode_error
    | some (number, member_type) ↦ encode_single number member_type v
  ]
  present n false (scalar kind w) v =
      if is_zero kind v then ok [] else encode_single n (scalar kind w) v
  present n false (TypeSpec.enum c) v =
      (check_int v >>= λ z. if eqb_ℤ z (pos 0) then ok [] else encode_single n (TypeSpec.enum c) v)
  present n optional spec v = encode_single n spec v

  unfoldable pub encode_field : ℕ → Bool → TypeSpec → Value → Result Bytes
  unfolding in_list in_map present
  encode_field n optional (list_of item) v =
      if is_packed item
      then if truthy v then (in_list (packed item) v >>= λ raw. ok (framed n raw)) else ok []
      else in_list (separate n item) v
  encode_field n optional (map_of key item) v = if truthy v then in_map n key item v else ok []
  encode_field n optional spec null = if optional then ok [] else err encode_error
  encode_field n optional spec v = present n optional spec v

  unfoldable pub encode_fields : Fields → Values → Result Bytes
  unfolding encode_field
  encode_fields [] vs = ok []
  encode_fields (f ∷ fs) nil = err attribute_error
  encode_fields (f ∷ fs) (cons v vs) = do
    head ← encode_field f.number f.optional f.type v
    tail ← encode_fields fs vs
    ok (head ++ tail)

-- `_encode_struct`, nested as deep as Python lets it.
unfoldable pub encode_struct : ℕ → Classes → Fields → Values → Result Bytes
unfolding encode_fields
encode_struct zero classes fs vs = err recursion_error
encode_struct (suc depth) classes fs vs = encode_fields (encode_struct depth classes) classes fs vs

-- `encode(obj)`: a value that is no struct instance has no schema.
unfoldable pub encode : Classes → Value → Result Bytes
unfolding encode_struct
encode classes (obj c vs) = encode_struct classes.recursion_limit classes (classes.fields_of c) vs
encode classes v = err type_error
