-- ===== src/Text/Base64/RoundTrip.antt =====
-- Base64, written and read.
use grapec.Base.{
  ℕ, ◌+◌, ◌*◌, ◌/◌, ◌%◌, ◌<◌, ◌≡◌, refl, ap, arith, Bool, List, [], ◌∷◌, ◌++◌, some, ltb, ◌==◌, All,
}
use grapec.Errors.{ok, ◌>>=◌}
use grapec.Text.{Str}
use grapec.Text.Base64.{
  symbol, six_bits, b64encode, Group, start, one, two, three, step, is_complete, read_symbols,
  is_ascii, b64decode,
}

six_bits-symbol : (n : ℕ) → n < 64 → six_bits (symbol n) ≡ some n
unfolding six_bits symbol
six_bits-symbol n h = ground arith

symbol_plain :
    (n : ℕ) → n < 64 → ((symbol n == b'=') ≡ Bool.false) × (ltb (symbol n) 128 ≡ Bool.true)
unfolding symbol
symbol_plain n h = (ground arith, ground arith)

-- One symbol of the encoder, read back.
read_symbol :
    (group : Group) (pads n : ℕ) (cs : Str)
    → n < 64
    → read_symbols group pads (symbol n ∷ cs)
      ≡ (read_symbols (step group n).1 0 cs >>= λ more. ok ((step group n).0 ++ more))
unfolding read_symbols
read_symbol group pads n cs h = rw ((symbol_plain n h).0, six_bits-symbol n h) refl

first_byte : (a b : ℕ) → a < 256 → b < 256 → a / 4 * 4 + (a % 4 * 16 + b / 16) / 16 ≡ a
first_byte a b ha hb = omega arith

second_byte :
    (a b c : ℕ)
    → b < 256
    → c < 256
    → (a % 4 * 16 + b / 16) % 16 * 16 + (b % 16 * 4 + c / 64) / 4 ≡ b
second_byte a b c hb hc = omega arith

third_byte : (b c : ℕ) → c < 256 → (b % 16 * 4 + c / 64) % 4 * 64 + c % 64 ≡ c
third_byte b c hc = omega arith

pads_two : (x : ℕ) → read_symbols (two x) 0 (b'=' ∷ b'=' ∷ []) ≡ ok []
unfolding read_symbols is_complete
pads_two x = refl

pads_three : (x : ℕ) → read_symbols (three x) 0 (b'=' ∷ []) ≡ ok []
unfolding read_symbols is_complete
pads_three x = refl

read_back :
    (bytes : List ℕ) → All (λ b. b < 256) bytes → read_symbols start 0 (b64encode bytes) ≡ ok bytes
unfolding b64encode step
read_back [] h = unfold read_symbols in refl
read_back (a ∷ []) (ha, h) =
    rw
      (
        read_symbol start 0 (a / 4) (symbol (a % 4 * 16) ∷ b'=' ∷ b'=' ∷ []) (omega arith),
        read_symbol (one (a / 4)) 0 (a % 4 * 16) (b'=' ∷ b'=' ∷ []) (omega arith),
        pads_two (a % 4 * 16 % 16),
      )
      (ap (λ t. ok (t ∷ [])) (omega arith))
read_back (a ∷ b ∷ []) (ha, (hb, h)) =
    rw
      (
        read_symbol start 0 (a / 4) _ (omega arith),
        read_symbol (one (a / 4)) 0 (a % 4 * 16 + b / 16) _ (omega arith),
        read_symbol (two ((a % 4 * 16 + b / 16) % 16)) 0 (b % 16 * 4) _ (omega arith),
        pads_three (b % 16 * 4 % 4),
        first_byte a b ha hb,
      )
      (ap (λ t. ok (a ∷ t ∷ [])) (omega arith))
read_back (a ∷ b ∷ c ∷ rest) (ha, (hb, (hc, h))) =
    rw
      (
        read_symbol start 0 (a / 4) _ (omega arith),
        read_symbol (one (a / 4)) 0 (a % 4 * 16 + b / 16) _ (omega arith),
        read_symbol (two ((a % 4 * 16 + b / 16) % 16)) 0 (b % 16 * 4 + c / 64) _ (omega arith),
        read_symbol (three ((b % 16 * 4 + c / 64) % 4)) 0 (c % 64) _ (omega arith),
        read_back rest h,
        first_byte a b ha hb,
        second_byte a b c hb hc,
        third_byte b c hc,
      )
      refl

is_ascii-encode :
    (bytes : List ℕ) → All (λ b. b < 256) bytes → is_ascii (b64encode bytes) ≡ Bool.true
unfolding b64encode is_ascii
is_ascii-encode [] h = refl
is_ascii-encode (a ∷ []) (ha, h) =
    rw ((symbol_plain (a / 4) (omega arith)).1, (symbol_plain (a % 4 * 16) (omega arith)).1) refl
is_ascii-encode (a ∷ b ∷ []) (ha, (hb, h)) =
    rw
      (
        (symbol_plain (a / 4) (omega arith)).1,
        (symbol_plain (a % 4 * 16 + b / 16) (omega arith)).1,
        (symbol_plain (b % 16 * 4) (omega arith)).1,
      )
      refl
is_ascii-encode (a ∷ b ∷ c ∷ rest) (ha, (hb, (hc, h))) =
    rw
      (
        (symbol_plain (a / 4) (omega arith)).1,
        (symbol_plain (a % 4 * 16 + b / 16) (omega arith)).1,
        (symbol_plain (b % 16 * 4 + c / 64) (omega arith)).1,
        (symbol_plain (c % 64) (omega arith)).1,
      )
      (is_ascii-encode rest h)

pub b64decode-b64encode :
    (bytes : List ℕ) → All (λ b. b < 256) bytes → b64decode (b64encode bytes) ≡ ok bytes
unfolding b64decode
b64decode-b64encode bytes h = rw (is_ascii-encode bytes h, read_back bytes h) refl
