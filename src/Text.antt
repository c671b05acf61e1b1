-- ===== src/Text.antt =====
-- Python's `str`, a list of code points, and its UTF-8: `str.encode("utf-8")`,
-- `bytes.decode("utf-8")` and `bytes.decode("utf-8", "replace")`, on which the codecs rely.
pub mod RoundTrip
pub mod Strict
pub mod Total
pub mod Digits
pub mod Base64
pub mod Unquote
use grapec.Base.{
  ℕ, zero, suc, ◌+◌, ◌-◌, ◌*◌, ◌/◌, ◌%◌, ◌<◌, ◌≤◌, ◌≡◌, Bool, true, false, ◌&&◌, List, [], ◌∷◌,
  ◌++◌, ltb, leb, ◌==◌, if◌then◌else◌, length, Option, none, some,
}
use grapec.Errors.{Result, ok, err, ◌>>=◌, unicode_error, no_fuel}
use Prim.Native.Char.{code}
use Prim.Native.String.{String}

abbrev pub Str : Type 0
Str = List ℕ

-- The code points of a literal. `String` has its own `[]` and `∷`.
abbrev pub codes : String → Str
codes String.[] = []
codes (String.◌∷◌ c s) = code c ∷ codes s

-- `==` on texts.
unfoldable pub same_text : Str → Str → Bool
same_text [] [] = true
same_text (a ∷ as') (b ∷ bs) = a == b && same_text as' bs
same_text _ _ = false

-- A lone surrogate cannot be encoded.
unfoldable pub encode_char : ℕ → Result (List ℕ)
encode_char c =
    if ltb c 0x80
    then ok (c ∷ [])
    else if ltb c 0x800
    then ok ((0xc0 + c / 64) ∷ (0x80 + c % 64) ∷ [])
    else if leb 0xd800 c && ltb c 0xe000
    then err unicode_error
    else if ltb c 0x10000
    then ok ((0xe0 + c / 4096) ∷ (0x80 + c / 64 % 64) ∷ (0x80 + c % 64) ∷ [])
    else ok
        ((0xf0 + c / 262144) ∷ (0x80 + c / 4096 % 64) ∷ (0x80 + c / 64 % 64) ∷ (0x80 + c % 64) ∷ [])

unfoldable pub encode : Str → Result (List ℕ)
unfolding encode_char
encode [] = ok []
encode (c ∷ cs) = do head ← encode_char c; tail ← encode cs; ok (head ++ tail)

-- What stands at the front: a character, or bytes that are no UTF-8, as far as they could begin a
-- character. The rest follows.
abbrev pub Front : Type 0
Front = Option ℕ × List ℕ

-- One more continuation byte, from `lo` up to but not `hi`.
unfoldable pub tail_one : ℕ → ℕ → ℕ → List ℕ → Front
tail_one lo hi acc [] = (none, [])
tail_one lo hi acc (b ∷ rest) =
    if leb lo b && ltb b hi then (some (acc * 64 + b % 64), rest) else (none, b ∷ rest)

unfoldable pub tail_two : ℕ → ℕ → ℕ → List ℕ → Front
tail_two lo hi acc [] = (none, [])
tail_two lo hi acc (b ∷ rest) =
    if leb lo b && ltb b hi then tail_one 0x80 0xc0 (acc * 64 + b % 64) rest else (none, b ∷ rest)

unfoldable pub tail_three : ℕ → ℕ → ℕ → List ℕ → Front
tail_three lo hi acc [] = (none, [])
tail_three lo hi acc (b ∷ rest) =
    if leb lo b && ltb b hi then tail_two 0x80 0xc0 (acc * 64 + b % 64) rest else (none, b ∷ rest)

-- The bounds on the second byte rule out overlong forms, surrogates and what is above 0x10ffff.
unfoldable pub front : ℕ → List ℕ → Front
unfolding tail_one tail_two tail_three
front b rest =
    if ltb b 0x80
    then (some b, rest)
    else if ltb b 0xc2
    then (none, rest)
    else if ltb b 0xe0
    then tail_one 0x80 0xc0 (b - 0xc0) rest
    else if ltb b 0xf0
    then tail_two (if b == 0xe0 then 0xa0 else 0x80) (if b == 0xed then 0xa0 else 0xc0) (b - 0xe0)
        rest
    else if ltb b 0xf5
    then tail_three (if b == 0xf0 then 0x90 else 0x80) (if b == 0xf4 then 0x90 else 0xc0) (b - 0xf0)
        rest
    else (none, rest)

-- Each round takes a byte at least.
unfoldable pub decode_loop : ℕ → List ℕ → Result Str
decode_loop fuel [] = ok []
decode_loop zero (b ∷ bs) = err no_fuel
decode_loop (suc fuel) (b ∷ bs) =
    let (char, rest) = front b bs in
    elim char [ none ↦ err unicode_error | some c ↦ (decode_loop fuel rest >>= λ cs. ok (c ∷ cs)) ]

unfoldable pub decode : List ℕ → Result Str
unfolding decode_loop
decode bytes = decode_loop (length bytes) bytes

unfoldable pub replace_loop : ℕ → List ℕ → Str
replace_loop fuel [] = []
replace_loop zero (b ∷ bs) = []
replace_loop (suc fuel) (b ∷ bs) =
    let (char, rest) = front b bs in
    elim char [ none ↦ 0xfffd | some c ↦ c ] ∷ replace_loop fuel rest

unfoldable pub decode_replace : List ℕ → Str
unfolding replace_loop
decode_replace bytes = replace_loop (length bytes) bytes
