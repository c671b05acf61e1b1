-- ===== src/Dict/Durations/RoundTrip.antt =====
-- Durations of dict.py, written and read.
use grapec.Base.{
  ℕ, zero, suc, ◌+◌, ◌*◌, ◌/◌, ◌%◌, ◌≤◌, ◌<◌, ◌≡◌, refl, ap, ◌∙◌, arith, Bool, true, false, [], ◌∷◌,
  ◌++◌, Option, none, some, ltb, ◌==◌, if◌then◌else◌, length, take, drop, All, Bool-cases, inl, inr,
}
use grapec.Base.Int.{ℤ, pos, negsuc}
use grapec.Dict.Durations.{
  million, padded, fraction, magnitude, is_negative, format_duration, span_digits, span_fraction,
  is_end, match_amount, number, max_digits, amount, read_amount, parse_duration,
}
use grapec.Errors.{ok, FailsAs, Error, value_error, overflow_error}
use grapec.Protobuf.Moments.{is_timedelta}
use grapec.Text.{Str, codes, same_text}
use grapec.Text.Digits.{digits, digits_loop, is_digit}

abbrev AreDigits : Str → Type 0
AreDigits = All (λ c. is_digit c ≡ true)

digit_lem : (n : ℕ) → n < 10 → is_digit (48 + n) ≡ true
unfolding is_digit
digit_lem n h = ground arith

digits_loop-AreDigits :
    (fuel n : ℕ) (acc : Str) → n ≤ fuel → AreDigits acc → AreDigits (digits_loop fuel n acc)
unfolding digits_loop
digits_loop-AreDigits zero n acc h k = (digit_lem n (omega arith), k)
digits_loop-AreDigits (suc fuel) n acc h k = elim (Bool-cases (ltb n 10)) [
  | inl small ↦ rw small (digit_lem n (ground arith), k)
  | inr large ↦ rw large (
      digits_loop-AreDigits fuel (n / 10) ((48 + n % 10) ∷ acc) (ground arith)
        (digit_lem (n % 10) (omega arith), k))
]

number-digits_loop :
    (fuel n : ℕ) (acc : Str) → n ≤ fuel → number 0 (digits_loop fuel n acc) ≡ number n acc
unfolding digits_loop number
number-digits_loop zero n acc h = ap (λ m. number m acc) (omega arith)
number-digits_loop (suc fuel) n acc h = elim (Bool-cases (ltb n 10)) [
  | inl small ↦ rw small (ap (λ m. number m acc) (omega arith))
  | inr large ↦ rw large (
      number-digits_loop fuel (n / 10) ((48 + n % 10) ∷ acc) (ground arith)
      ∙ ap (λ m. number m acc) (omega arith))
]

abbrev tens : ℕ → ℕ
tens zero = 1
tens (suc k) = 10 * tens k

length-digits_loop :
    (k fuel n : ℕ) (acc : Str)
    → n < tens (suc k)
    → length (digits_loop fuel n acc) ≤ suc k + length acc
unfolding digits_loop
length-digits_loop k zero n acc h = omega arith
length-digits_loop zero (suc fuel) n acc h =
    let small : ltb n 10 ≡ true = ground arith in rw small (omega arith)
length-digits_loop (suc k) (suc fuel) n acc h = elim (Bool-cases (ltb n 10)) [
  | inl small ↦ rw small (omega arith)
  | inr large ↦
      let shorter : length (digits_loop fuel (n / 10) ((48 + n % 10) ∷ acc))
          ≤ suc k + suc (length acc) =
        length-digits_loop k fuel (n / 10) ((48 + n % 10) ∷ acc) (omega arith) in
      rw large (omega arith)
]

-- At least one digit.
digits_some : (fuel n : ℕ) (acc : Str) → 0 < length (digits_loop fuel n acc)
unfolding digits_loop
digits_some zero n acc = omega arith
digits_some (suc fuel) n acc = elim (Bool-cases (ltb n 10)) [
  | inl small ↦ rw small (omega arith)
  | inr large ↦ rw large (digits_some fuel (n / 10) ((48 + n % 10) ∷ acc))
]

-- The digits stop where a character is none.
abbrev Stops : Str → Type 0
Stops [] = Unit {0}
Stops (c ∷ cs) = is_digit c ≡ false

span_digits-append :
    (ds rest : Str) → AreDigits ds → Stops rest → span_digits (ds ++ rest) ≡ (ds, rest)
unfolding span_digits
span_digits-append [] [] h k = refl
span_digits-append [] (c ∷ cs) h k = rw k refl
span_digits-append (d ∷ ds) rest (h, hs) k = rw (span_digits-append ds rest hs k, h) refl

six_back : (us : ℕ) → us < million → number 0 (padded 6 us) ≡ us
unfolding number padded
six_back us h = omega arith

six-AreDigits : (us : ℕ) → AreDigits (padded 6 us)
unfolding padded
six-AreDigits us = (
  digit_lem _ (omega arith),
  (
    digit_lem _ (omega arith),
    (
      digit_lem _ (omega arith),
      (digit_lem _ (omega arith), (digit_lem _ (omega arith), (digit_lem _ (omega arith), tt))),
    ),
  ),
)

three-AreDigits : (us : ℕ) → AreDigits (take 3 (padded 6 us))
unfolding padded
three-AreDigits us =
    (digit_lem _ (omega arith), (digit_lem _ (omega arith), (digit_lem _ (omega arith), tt)))

-- The milliseconds are enough where the last three digits are zeros.
short_lem :
    (us : ℕ)
    → us < million
    → same_text (drop 3 (padded 6 us)) (codes "000") ≡ true
    → number 0 (take 3 (padded 6 us) ++ codes "000") ≡ us
unfolding padded same_text number
short_lem us h zeros = ground arith

-- What a fraction is read back as.
abbrev FractionBack : ℕ → Str → Type 0
FractionBack us text =
    (frac : Str) × (span_fraction text ≡ (frac, codes "s"))
    × ((if ltb 0 (length frac) then number 0 (take 6 (frac ++ codes "000000")) else 0) ≡ us)

behind_point :
    (ds : Str)
    → AreDigits ds
    → 0 < length ds
    → span_fraction (b'.' ∷ (ds ++ codes "s")) ≡ (ds, codes "s")
unfolding span_fraction
behind_point ds h some_digits =
    let found : ltb 0 (length ds) ≡ true = ground arith in
    rw (span_digits-append ds (codes "s") h (unfold is_digit in refl), found) refl

fraction-FractionBack : (us : ℕ) → us < million → FractionBack us (fraction us ++ codes "s")
unfolding fraction
fraction-FractionBack us h = elim (Bool-cases (us == 0)) [
  | inl none_left ↦ rw none_left ([], (unfold span_fraction span_digits in refl), (ground arith))
  | inr some_left ↦ elim (Bool-cases (same_text (drop 3 (padded 6 us)) (codes "000"))) [
    | inl zeros ↦
        rw (some_left, zeros)
          (
            take 3 (padded 6 us),
            behind_point (take 3 (padded 6 us)) (three-AreDigits us) (unfold padded in omega arith),
            unfold padded in short_lem us h zeros,
          )
    | inr full ↦
        rw (some_left, full)
          (
            padded 6 us,
            behind_point (padded 6 us) (six-AreDigits us) (unfold padded in omega arith),
            unfold padded in six_back us h,
          )
  ]
]

fraction-Stops : (us : ℕ) → Stops (fraction us ++ codes "s")
unfolding fraction
fraction-Stops us = elim (Bool-cases (us == 0)) [
  | inl none_left ↦ rw none_left (unfold is_digit in refl)
  | inr some_left ↦ rw some_left (unfold is_digit in refl)
]

match_back :
    (ds text frac : Str)
    → AreDigits ds
    → 0 < length ds
    → Stops text
    → span_fraction text ≡ (frac, codes "s")
    → match_amount (ds ++ text) ≡ some (ds, frac)
unfolding match_amount is_end same_text
match_back ds text frac h some_digits k e =
    let found : ltb 0 (length ds) ≡ true = ground arith in
    rw (span_digits-append ds text h k, e, found) refl

unsigned :
    (ds text : Str)
    → AreDigits ds
    → 0 < length ds
    → parse_duration (ds ++ text) ≡ read_amount false (match_amount (ds ++ text))
unfolding parse_duration is_digit
unsigned [] text h some_digits = absurd (omega arith)
unsigned (d ∷ ds) text (h, hs) some_digits =
    let no_sign : (d == b'-') ≡ false = ground arith in rw no_sign refl

digits-AreDigits : (n : ℕ) → AreDigits (digits n)
unfolding digits
digits-AreDigits n = digits_loop-AreDigits n n [] (omega arith) tt

amount_lem :
    (ds frac : Str) (seconds us total : ℕ)
    → number 0 ds ≡ seconds
    → ((if ltb 0 (length frac) then number 0 (take 6 (frac ++ codes "000000")) else 0) ≡ us)
    → seconds * million + us ≡ total
    → amount ds frac ≡ total
unfolding amount
amount_lem ds frac seconds us total hs hu e = rw (hs, hu) e

-- The seconds and the fraction, read together.
read_back :
    (total : ℕ)
    → is_timedelta (pos total) ≡ true
    → (text : Str) × (match_amount
          (digits (total / million) ++ (fraction (total % million) ++ codes "s"))
        ≡ some (digits (total / million), text))
      × (amount (digits (total / million)) text ≡ total)
      × (ltb max_digits (length (digits (total / million))) ≡ false)
unfolding digits number
read_back total h =
    let seconds = total / million in
    let us = total % million in
    let (frac, spanned, value) = fraction-FractionBack us (omega arith) in
    let back : number 0 (digits seconds) ≡ seconds =
      number-digits_loop seconds seconds [] (omega arith) in
    let bound : seconds < tens 14 = ground arith in
    let short : length (digits seconds) ≤ 14 + 0 = length-digits_loop 13 seconds seconds [] bound in
    (
      frac,
      match_back (digits seconds) (fraction us ++ codes "s") frac (digits-AreDigits seconds)
          (digits_some seconds seconds []) (fraction-Stops us) spanned,
      amount_lem (digits seconds) frac seconds us total back value (omega arith),
      ground arith,
    )

negative_fits : (n : ℕ) → is_timedelta (negsuc n) ≡ true → is_timedelta (pos (suc n)) ≡ true
negative_fits n h = ground arith

-- A timedelta that Python can hold is parsed from its text as it was, a negative one and its
-- microseconds included.
pub parse_duration-format_duration :
    (us : ℤ) → is_timedelta us ≡ true → parse_duration (format_duration us) ≡ ok us
unfolding format_duration magnitude is_negative read_amount
parse_duration-format_duration (pos n) h =
    let (frac, matched, value, few) = read_back n h in
    unsigned (digits (n / million)) (fraction (n % million) ++ codes "s")
      (digits-AreDigits (n / million)) (unfold digits in digits_some (n / million) (n / million) [])
    ∙ (rw (matched, value, few, h) refl)
parse_duration-format_duration (negsuc n) h =
    let (frac, matched, value, few) = read_back (suc n) (negative_fits n h) in
    (unfold parse_duration in rw (matched, value, few, negative_fits n h, h) refl)

-- What `_parse_duration` raises.
abbrev pub IsDurationError : Error → Type 0
IsDurationError value_error = Unit {0}
IsDurationError overflow_error = Unit {0}
IsDurationError _ = ⊥

read_amount-FailsAs :
    (minus : Bool) (parts : Option (Str × Str)) → FailsAs IsDurationError (read_amount minus parts)
unfolding read_amount
read_amount-FailsAs minus none = tt
read_amount-FailsAs minus (some (seconds, frac)) = ground arith

pub parse_duration-FailsAs : (s : Str) → FailsAs IsDurationError (parse_duration s)
unfolding parse_duration
parse_duration-FailsAs [] = tt
parse_duration-FailsAs (c ∷ cs) = ground (
  arith,
  read_amount-FailsAs true (match_amount cs),
  read_amount-FailsAs false (match_amount (c ∷ cs)),
)
