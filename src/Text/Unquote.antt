-- ===== src/Text/Unquote.antt =====
-- Python's `urllib.parse.unquote`, which grpc.py applies to a status message.
use grapec.Base.{
  ℕ, ◌+◌, ◌-◌, ◌*◌, ◌&&◌, List, [], ◌∷◌, ◌++◌, Option, none, some, ltb, leb, ◌==◌, if◌then◌else◌,
  reverse,
}
use grapec.Text.{Str, decode_replace}

unfoldable pub hex_digit : ℕ → Option ℕ
hex_digit c =
    if leb b'0' c && leb c b'9'
    then some (c - 48)
    else if leb b'a' c && leb c b'f'
    then some (c - 87)
    else if leb b'A' c && leb c b'F'
    then some (c - 55)
    else none

unfoldable pub hex_byte : ℕ → ℕ → Option ℕ
unfolding hex_digit
hex_byte a b = elim (hex_digit a) [
  | none ↦ none
  | some high ↦ elim (hex_digit b) [ none ↦ none | some low ↦ some (high * 16 + low) ]
]

-- A run of ASCII characters is made bytes and decoded as a whole; `run` has its bytes so far, the
-- last one first.
unfoldable pub unquote_loop : List ℕ → Str → Str
unfolding hex_byte
unquote_loop run [] = decode_replace (reverse run)
unquote_loop run (c ∷ []) =
    if ltb c 128
    then decode_replace (reverse (c ∷ run))
    else decode_replace (reverse run) ++ (c ∷ [])
unquote_loop run (c ∷ d ∷ []) =
    let kept = unquote_loop (c ∷ run) (d ∷ []) in
    let after = unquote_loop [] (d ∷ []) in
    if ltb c 128 then kept else decode_replace (reverse run) ++ (c ∷ after)
unquote_loop run (c ∷ d ∷ e ∷ rest) =
    let kept = unquote_loop (c ∷ run) (d ∷ e ∷ rest) in
    let after = unquote_loop [] (d ∷ e ∷ rest) in
    let read : ℕ → Str = (λ byte. unquote_loop (byte ∷ run) rest) in
    if c == b'%'
    then elim (hex_byte d e) [ none ↦ kept | some byte ↦ read byte ]
    else if ltb c 128
    then kept
    else decode_replace (reverse run) ++ (c ∷ after)

unfoldable pub unquote : Str → Str
unfolding unquote_loop
unquote text = unquote_loop [] text
