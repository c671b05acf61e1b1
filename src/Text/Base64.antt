-- ===== src/Text/Base64.antt =====
-- Python's `base64.b64encode` and the lenient `base64.b64decode`, on which grpc.py and dict.py rely
-- for binary metadata and for bytes in JSON.
pub mod RoundTrip
use grapec.Base.{
  ℕ, zero, suc, ◌+◌, ◌-◌, ◌*◌, ◌/◌, ◌%◌, ◌<◌, ◌≡◌, refl, ap, ◌∙◌, arith, Bool, ◌&&◌, List, [], ◌∷◌,
  ◌++◌, Option, none, some, ltb, leb, ◌==◌, if◌then◌else◌, length, All,
}
use grapec.Errors.{Result, ok, err, ◌>>=◌, value_error}
use grapec.Text.{Str}

-- The character of six bits, and back.
unfoldable pub symbol : ℕ → ℕ
symbol n =
    if ltb n 26
    then 65 + n
    else if ltb n 52
    then 71 + n
    else if ltb n 62
    then n - 4
    else if n == 62
    then b'+'
    else b'/'

unfoldable pub six_bits : ℕ → Option ℕ
six_bits c =
    if leb b'A' c && leb c b'Z'
    then some (c - 65)
    else if leb b'a' c && leb c b'z'
    then some (c - 71)
    else if leb b'0' c && leb c b'9'
    then some (c + 4)
    else if c == b'+'
    then some 62
    else if c == b'/'
    then some 63
    else none

unfoldable pub b64encode : List ℕ → Str
unfolding symbol
b64encode [] = []
b64encode (a ∷ []) = symbol (a / 4) ∷ symbol (a % 4 * 16) ∷ b'=' ∷ b'=' ∷ []
b64encode (a ∷ b ∷ []) =
    symbol (a / 4) ∷ symbol (a % 4 * 16 + b / 16) ∷ symbol (b % 16 * 4) ∷ b'=' ∷ []
b64encode (a ∷ b ∷ c ∷ rest) =
    symbol (a / 4)
    ∷ symbol (a % 4 * 16 + b / 16)
    ∷ symbol (b % 16 * 4 + c / 64)
    ∷ symbol (c % 64)
    ∷ b64encode rest

-- What `binascii.a2b_base64` has read of a group: no character, or one, two or three, with the bits
-- that are left of them.
pub data Group : Type 0 where
  start : Group
  one two three : ℕ → Group

-- The bytes that a character completes, and the group after it.
unfoldable pub step : Group → ℕ → List ℕ × Group
step start n = ([], one n)
step (one left) n = ((left * 4 + n / 16) ∷ [], two (n % 16))
step (two left) n = ((left * 16 + n / 4) ∷ [], three (n % 4))
step (three left) n = ((left * 64 + n) ∷ [], start)

-- Reading ends with the padding that completes a group; other characters are passed over.
unfoldable pub is_complete : Group → ℕ → Bool
is_complete start pads = Bool.false
is_complete (one left) pads = Bool.false
is_complete (two left) pads = leb 2 pads
is_complete (three left) pads = leb 1 pads

abbrev at_end : Group → Result (List ℕ)
at_end start = ok []
at_end _ = err value_error

unfoldable pub read_symbols : Group → ℕ → Str → Result (List ℕ)
unfolding step six_bits is_complete
read_symbols group pads [] = at_end group
read_symbols group pads (c ∷ cs) =
    let padded = suc pads in
    let again = read_symbols group padded cs in
    let passed = read_symbols group pads cs in
    if c == b'=' then if is_complete group padded then ok [] else again else elim (six_bits c) [
      | none ↦ passed
      | some n ↦
          (let (bytes, after) = step group n in
            read_symbols after 0 cs >>= λ more. ok (bytes ++ more))
    ]

unfoldable pub is_ascii : Str → Bool
is_ascii [] = Bool.true
is_ascii (c ∷ cs) = ltb c 128 && is_ascii cs

-- `binascii.Error` is a ValueError.
unfoldable pub b64decode : Str → Result (List ℕ)
unfolding read_symbols is_ascii
b64decode text = if is_ascii text then read_symbols start 0 text else err value_error
