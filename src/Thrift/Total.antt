-- ===== src/Thrift/Total.antt =====
-- `skip` of thrift.py and the readers below it on any bytes.
use grapec.Base.{
  ℕ, zero, suc, ◌+◌, ◌<◌, ◌≡◌, arith, [], ◌∷◌, some, length, length-drop, Option-cases, inl, inr,
}
use grapec.Base.Int.{ℤ, pos, negsuc}
use grapec.Errors.{Result, ok, err, ◌>>=◌, Error, thrift_error, recursion_error}
use grapec.Thrift.{
  need, read, read_byte, read_binary, check_count, size_of, skip, skip_fields, skip_items,
  skip_entries, skip_composed,
}
use grapec.Wire.{Bytes}

abbrev pub IsThriftError : Error → Type 0
IsThriftError (thrift_error fault) = Unit {0}
IsThriftError _ = ⊥

-- A value with the property, or a ThriftError.
abbrev pub Yields {ℓ} : {A : Type ℓ} → (A → Type 0) → Result A → Type 0
Yields Q (ok a) = Q a
Yields Q (err e) = IsThriftError e

pub Yields-bind {ℓ κ} :
    {A : Type ℓ} {B : Type κ} (Q : A → Type 0) (R : B → Type 0) (m : Result A) (f : A → Result B)
    → Yields Q m
    → ((a : A) → Q a → Yields R (f a))
    → Yields R (m >>= f)
Yields-bind Q R (ok a) f h k = k a h
Yields-bind Q R (err e) f h k = h

Yields-weaken {ℓ} :
    {A : Type ℓ} (Q R : A → Type 0) (m : Result A) → Yields Q m → ((a : A) → Q a → R a) → Yields R m
Yields-weaken Q R (ok a) h k = k a h
Yields-weaken Q R (err e) h k = h

pub need_lem :
    (size : ℕ) (buf : Bytes) → Yields (λ rest. length rest + size ≡ length buf) (need size buf)
unfolding need
need_lem size buf = ground (arith, length-drop size buf)

pub read_lem :
    (size : ℕ) (buf : Bytes) → Yields (λ p. length p.1 + size ≡ length buf) (read size buf)
unfolding read
read_lem size buf =
    Yields-bind (λ rest. length rest + size ≡ length buf) (λ p. length p.1 + size ≡ length buf)
      (need size buf) _ (need_lem size buf) λ rest h. h

pub read_byte_lem : (buf : Bytes) → Yields (λ p. length p.1 + 1 ≡ length buf) (read_byte buf)
unfolding read_byte
read_byte_lem [] = tt
read_byte_lem (b ∷ rest) = omega arith

pub check_count_lem : (z : ℤ) → Yields (λ n. Unit {0}) (check_count z)
unfolding check_count
check_count_lem (pos n) = tt
check_count_lem (negsuc n) = tt

pub read_binary_lem : (buf : Bytes) → Yields (λ p. length p.1 < length buf) (read_binary buf)
unfolding read_binary
read_binary_lem buf =
    Yields-bind _ (λ p. length p.1 < length buf) (read 4 buf) _ (read_lem 4 buf)
      λ (size, body) h.
        Yields-bind _ (λ p. length p.1 < length buf) (check_count size) _ (check_count_lem size)
          λ n u.
            Yields-bind _ (λ p. length p.1 < length buf) (need n body) _ (need_lem n body)
              λ rest r. omega arith

-- What `skip` may raise: ThriftError, and RecursionError where values nest too deeply.
abbrev pub IsSkipError : Error → Type 0
IsSkipError (thrift_error fault) = Unit {0}
IsSkipError recursion_error = Unit {0}
IsSkipError _ = ⊥

-- A value with the property, or one of these errors.
abbrev pub Skips {ℓ} : {A : Type ℓ} → (A → Type 0) → Result A → Type 0
Skips Q (ok a) = Q a
Skips Q (err e) = IsSkipError e

pub Skips-bind {ℓ κ} :
    {A : Type ℓ} {B : Type κ} (Q : A → Type 0) (R : B → Type 0) (m : Result A) (f : A → Result B)
    → Skips Q m
    → ((a : A) → Q a → Skips R (f a))
    → Skips R (m >>= f)
Skips-bind Q R (ok a) f h k = k a h
Skips-bind Q R (err e) f h k = h

Skips-weaken {ℓ} :
    {A : Type ℓ} (Q R : A → Type 0) (m : Result A) → Skips Q m → ((a : A) → Q a → R a) → Skips R m
Skips-weaken Q R (ok a) h k = k a h
Skips-weaken Q R (err e) h k = h

-- A reader that raises ThriftError only.
from_reader {ℓ} : {A : Type ℓ} (Q : A → Type 0) (m : Result A) → Yields Q m → Skips Q m
from_reader Q (ok a) h = h
from_reader Q (err (thrift_error fault)) h = tt
from_reader Q (err _) h = elim h [ ]

pub need-Skips :
    (size : ℕ) (buf : Bytes) → Skips (λ rest. length rest + size ≡ length buf) (need size buf)
need-Skips size buf =
    from_reader (λ rest. length rest + size ≡ length buf) (need size buf) (need_lem size buf)

pub read-Skips :
    (size : ℕ) (buf : Bytes) → Skips (λ p. length p.1 + size ≡ length buf) (read size buf)
read-Skips size buf =
    from_reader (λ p. length p.1 + size ≡ length buf) (read size buf) (read_lem size buf)

pub read_byte-Skips : (buf : Bytes) → Skips (λ p. length p.1 + 1 ≡ length buf) (read_byte buf)
read_byte-Skips buf =
    from_reader (λ p. length p.1 + 1 ≡ length buf) (read_byte buf) (read_byte_lem buf)

count-Skips : (z : ℤ) → Skips (λ n. Unit {0}) (check_count z)
count-Skips z = from_reader (λ n. Unit {0}) (check_count z) (check_count_lem z)

pub read_binary-Skips : (buf : Bytes) → Skips (λ p. length p.1 < length buf) (read_binary buf)
read_binary-Skips buf =
    from_reader (λ p. length p.1 < length buf) (read_binary buf) (read_binary_lem buf)

-- A value that is skipped leaves fewer bytes, and a loop leaves no more than it was given.
abbrev Shorter : ℕ → Result Bytes → Type 0
Shorter n = Skips (λ rest. length rest < n)

module _ (nested : Bytes → ℕ → Result Bytes)
    (ih : (buf : Bytes) (t : ℕ) → Shorter (length buf) (nested buf t)) where
  fields_lem :
      (fuel : ℕ) (buf : Bytes)
      → length buf < fuel
      → Shorter (length buf) (skip_fields nested fuel buf)
  unfolding skip_fields
  fields_lem zero buf h = absurd (omega arith)
  fields_lem (suc fuel) buf h =
      Skips-bind _ _ (read_byte buf) _ (read_byte-Skips buf) λ (inner, buf1) e1.
        let more =
          Skips-bind (λ rest. length rest + 2 ≡ length buf1) (λ rest. length rest < length buf)
            (need 2 buf1) (λ buf2. (nested buf2 inner >>= λ buf3. skip_fields nested fuel buf3))
            (need-Skips 2 buf1)
            (λ buf2 e2.
              Skips-bind (λ rest. length rest < length buf2) (λ rest. length rest < length buf)
                (nested buf2 inner) (λ buf3. skip_fields nested fuel buf3) (ih buf2 inner)
                (λ buf3 e3.
                  Skips-weaken _ _ (skip_fields nested fuel buf3)
                    (fields_lem fuel buf3 (omega arith)) (λ rest r. omega arith))) in
        ground arith

  items_lem : (n t : ℕ) (buf : Bytes) → Shorter (suc (length buf)) (skip_items nested n t buf)
  unfolding skip_items
  items_lem zero t buf = omega arith
  items_lem (suc n) t buf = Skips-bind _ _ (nested buf t) _ (ih buf t) λ rest e.
      Skips-weaken _ _ (skip_items nested n t rest) (items_lem n t rest) λ left r. omega arith

  entries_lem :
      (n k v : ℕ) (buf : Bytes) → Shorter (suc (length buf)) (skip_entries nested n k v buf)
  unfolding skip_entries
  entries_lem zero k v buf = omega arith
  entries_lem (suc n) k v buf = Skips-bind _ _ (nested buf k) _ (ih buf k) λ rest e.
      Skips-bind _ _ (nested rest v) _ (ih rest v) λ rest' e'.
        Skips-weaken _ _ (skip_entries nested n k v rest') (entries_lem n k v rest')
          λ left r. omega arith

  text_lem : (buf : Bytes) → Shorter (length buf) (read_binary buf >>= λ p. ok p.1)
  text_lem buf =
      Skips-bind (λ p. length p.1 < length buf) (λ rest. length rest < length buf) (read_binary buf)
        (λ p. ok p.1) (read_binary-Skips buf) λ p h. h

  list_lem :
      (buf : Bytes)
      → Shorter (length buf) (
          read_byte buf >>= λ (etype, buf1).
          (read 4 buf1 >>= λ (count, buf2).
          (check_count count >>= λ n. skip_items nested n etype buf2)))
  list_lem buf = Skips-bind _ _ (read_byte buf) _ (read_byte-Skips buf) λ (etype, buf1) e1.
      Skips-bind _ _ (read 4 buf1) _ (read-Skips 4 buf1) λ (count, buf2) e2.
        Skips-bind _ _ (check_count count) _ (count-Skips count) λ n u.
          Skips-weaken _ _ (skip_items nested n etype buf2) (items_lem n etype buf2)
            λ rest r. omega arith

  map_lem :
      (buf : Bytes)
      → Shorter (length buf) (
          read_byte buf >>= λ (ktype, buf1).
          (read_byte buf1 >>= λ (vtype, buf2).
          (read 4 buf2 >>= λ (count, buf3).
          (check_count count >>= λ n. skip_entries nested n ktype vtype buf3))))
  map_lem buf = Skips-bind _ _ (read_byte buf) _ (read_byte-Skips buf) λ (ktype, buf1) e1.
      Skips-bind _ _ (read_byte buf1) _ (read_byte-Skips buf1) λ (vtype, buf2) e2.
        Skips-bind _ _ (read 4 buf2) _ (read-Skips 4 buf2) λ (count, buf3) e3.
          Skips-bind _ _ (check_count count) _ (count-Skips count) λ n u.
            Skips-weaken _ _ (skip_entries nested n ktype vtype buf3)
              (entries_lem n ktype vtype buf3) λ rest r. omega arith

  composed_lem : (buf : Bytes) (t : ℕ) → Shorter (length buf) (skip_composed nested buf t)
  unfolding skip_composed
  composed_lem buf t = ground (
    arith,
    text_lem buf,
    fields_lem (suc (length buf)) buf (omega arith),
    list_lem buf,
    map_lem buf,
  )

sizes : (t size : ℕ) → size_of t ≡ some size → 0 < size
unfolding size_of
sizes t size e = ground arith

-- Skipping a value of any type in any bytes, however deep Python lets it nest, ends: with fewer
-- bytes left over, with ThriftError or with RecursionError.
pub skip_lem :
    (depth : ℕ) (buf : Bytes) (t : ℕ) → Skips (λ rest. length rest < length buf) (skip depth buf t)
unfolding skip
skip_lem zero buf t = tt
skip_lem (suc depth) buf t = elim (Option-cases (size_of t)) [
  | inr (size, e) ↦
      let large : 0 < size = sizes t size e in
      rw (e, skip) (Skips-weaken _ _ (need size buf) (need-Skips size buf) λ rest h. omega arith)
  | inl e ↦ rw (e, skip) (composed_lem (skip depth) (skip_lem depth) buf t)
]
