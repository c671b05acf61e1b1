-- ===== src/Text/Digits.antt =====
-- `str(n)` for a Python int, and `int(text)`, in the characters that a `Str` lists. Digits and
-- spaces beyond ASCII are not modelled.
use grapec.Base.{
  ℕ, zero, suc, ◌+◌, ◌-◌, ◌*◌, ◌/◌, ◌%◌, [], ◌∷◌, ltb, leb, ◌==◌, if◌then◌else◌, Bool, true, false,
  ◌&&◌, ◌||◌, Option, none, some,
}
use grapec.Base.Int.{ℤ, pos, negsuc}
use grapec.Text.{Str}

-- The digits of `n` in front of `acc`; a number is fuel enough for its digits.
unfoldable pub digits_loop : ℕ → ℕ → Str → Str
digits_loop zero n acc = (48 + n) ∷ acc
digits_loop (suc fuel) n acc =
    let more = digits_loop fuel (n / 10) ((48 + n % 10) ∷ acc) in
    if ltb n 10 then (48 + n) ∷ acc else more

unfoldable pub digits : ℕ → Str
unfolding digits_loop
digits n = digits_loop n n []

unfoldable pub int_text : ℤ → Str
unfolding digits
int_text (pos n) = digits n
int_text (negsuc n) = b'-' ∷ digits (suc n)

unfoldable pub is_digit : ℕ → Bool
is_digit c = leb b'0' c && leb c b'9'

abbrev pub is_space : ℕ → Bool
is_space c = (leb 9 c && leb c 13) || (leb 28 c && leb c 32)

-- Digits, with single underscores between them, up to the end or to spaces; `after` tells that a
-- digit stands in front.
unfoldable pub only_spaces : Str → Bool
only_spaces [] = true
only_spaces (c ∷ cs) = is_space c && only_spaces cs

unfoldable pub digits_value : Bool → ℕ → Str → Option ℕ
unfolding only_spaces is_digit
digits_value true acc [] = some acc
digits_value false acc [] = none
digits_value true acc (c ∷ cs) =
    let next = digits_value true (acc * 10 + (c - 48)) cs in
    let skip = digits_value false acc cs in
    if is_digit c
    then next
    else if c == b'_'
    then skip
    else if is_space c && only_spaces cs
    then some acc
    else none
digits_value false acc (c ∷ cs) =
    let next = digits_value true (acc * 10 + (c - 48)) cs in if is_digit c then next else none

abbrev negated : Option ℕ → Option ℤ
negated none = none
negated (some zero) = some (pos zero)
negated (some (suc n)) = some (negsuc n)

abbrev positive : Option ℕ → Option ℤ
positive none = none
positive (some n) = some (pos n)

-- `int(text)`, or none where it raises ValueError.
unfoldable pub int_of : Str → Option ℤ
unfolding digits_value
int_of [] = none
int_of (c ∷ cs) =
    let rest = int_of cs in
    if is_space c
    then rest
    else if c == b'-'
    then negated (digits_value false 0 cs)
    else if c == b'+'
    then positive (digits_value false 0 cs)
    else positive (digits_value false 0 (c ∷ cs))
