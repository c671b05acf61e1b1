-- ===== src/Dict/Durations.antt =====
-- `_format_duration` and `_parse_duration` of src/grapec/dict.py. A timedelta is its microseconds;
-- digits beyond ASCII, which `\d` matches as well, are not modelled.
pub mod RoundTrip
mod Examples
use grapec.Base.{
  ℕ, zero, suc, ◌+◌, ◌-◌, ◌*◌, ◌/◌, ◌%◌, Bool, true, false, ◌&&◌, not, List, [], ◌∷◌, ◌++◌, Option,
  none, some, ltb, ◌==◌, if◌then◌else◌, length, take, drop,
}
use grapec.Base.Int.{ℤ, pos, negsuc}
use grapec.Errors.{Result, ok, err, Error, value_error, overflow_error}
use grapec.Protobuf.Moments.{is_timedelta}
use grapec.Text.{Str, codes, same_text}
use grapec.Text.Digits.{digits, is_digit}

abbrev pub million : ℕ
million = 1000000

-- `f"{n:0wd}"` for a number of at most `w` digits.
unfoldable pub padded : ℕ → ℕ → Str
padded zero n = []
padded (suc w) n = padded w (n / 10) ++ ((48 + n % 10) ∷ [])

-- The part behind the seconds: milliseconds where that is enough.
unfoldable pub fraction : ℕ → Str
unfolding padded same_text
fraction us =
    let frac = padded 6 us in
    if us == 0
    then []
    else b'.' ∷ (if same_text (drop 3 frac) (codes "000") then take 3 frac else frac)

unfoldable pub magnitude : ℤ → ℕ
magnitude (pos n) = n
magnitude (negsuc n) = suc n

unfoldable pub is_negative : ℤ → Bool
is_negative (pos n) = false
is_negative (negsuc n) = true

-- `_format_duration`
unfoldable pub format_duration : ℤ → Str
unfolding fraction magnitude is_negative digits
format_duration us =
    let total = magnitude us in
    let text = digits (total / million) ++ (fraction (total % million) ++ codes "s") in
    if is_negative us then b'-' ∷ text else text

-- `\d*`, and what follows it.
unfoldable pub span_digits : Str → Str × Str
unfolding is_digit
span_digits [] = ([], [])
span_digits (c ∷ cs) =
    let (ds, rest) = span_digits cs in if is_digit c then (c ∷ ds, rest) else ([], c ∷ cs)

-- `(\.\d+)?`: the digits, none where the group does not match, and what follows.
unfoldable pub span_fraction : Str → Str × Str
unfolding span_digits
span_fraction [] = ([], [])
span_fraction (c ∷ cs) =
    let (ds, rest) = span_digits cs in
    if c == b'.' && ltb 0 (length ds) then (ds, rest) else ([], c ∷ cs)

-- `s$`: `$` matches in front of a last newline, too.
unfoldable pub is_end : Str → Bool
unfolding same_text
is_end s = if same_text s (codes "s") then true else same_text s (b's' ∷ 10 ∷ [])

-- `(\d+)(\.\d+)?s$`
unfoldable pub match_amount : Str → Option (Str × Str)
unfolding span_digits span_fraction is_end
match_amount s =
    let (seconds, rest) = span_digits s in
    let (frac, end) = span_fraction rest in
    if ltb 0 (length seconds) && is_end end then some (seconds, frac) else none

-- `int(…)` of digits.
unfoldable pub number : ℕ → Str → ℕ
number acc [] = acc
number acc (c ∷ cs) = number (acc * 10 + (c - 48)) cs

-- CPython refuses longer texts in `int`.
abbrev pub max_digits : ℕ
max_digits = 4300

abbrev checked : ℤ → Result ℤ
checked us = if is_timedelta us then ok us else err overflow_error

abbrev negated : ℕ → ℤ
negated zero = pos zero
negated (suc n) = negsuc n

-- The timedelta of the seconds and the fraction.
unfoldable pub amount : Str → Str → ℕ
unfolding number
amount seconds frac =
    let us = (if ltb 0 (length frac) then number 0 (take 6 (frac ++ codes "000000")) else 0) in
    number 0 seconds * million + us

unfoldable pub read_amount : Bool → Option (Str × Str) → Result ℤ
unfolding amount
read_amount minus none = err value_error
read_amount minus (some (seconds, frac)) =
    let value = amount seconds frac in
    if ltb max_digits (length seconds)
    then err value_error
    else if not (is_timedelta (pos value))
    then err overflow_error
    else if minus
    then checked (negated value)
    else ok (pos value)

-- `_parse_duration`
unfoldable pub parse_duration : Str → Result ℤ
unfolding read_amount match_amount
parse_duration [] = err value_error
parse_duration (c ∷ cs) =
    if c == b'-'
    then read_amount true (match_amount cs)
    else read_amount false (match_amount (c ∷ cs))
