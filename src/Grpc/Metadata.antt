-- ===== src/Grpc/Metadata.antt =====
-- Headers of src/grapec/grpc.py: `authority`, `_request_headers`, `_metadata`, `_b64decode`,
-- `_status_code`. Metadata keys are ASCII, as HTTP/2 wants them. `_format_timeout` computes with
-- floats: the text that it gives is an argument.
pub mod RoundTrip
use grapec.Base.{
  ℕ, zero, suc, ◌+◌, ◌-◌, ◌%◌, Bool, true, false, ◌&&◌, ◌||◌, not, List, [], ◌∷◌, ◌++◌, Option,
  none, some, reverse, ltb, leb, ◌==◌, if◌then◌else◌, length,
}
use grapec.Base.Int.{pos, negsuc}
use grapec.Errors.{
  Result, ok, err, ◌>>=◌, value_error, Status, ok_status, cancelled, unknown, invalid_argument,
  deadline_exceeded, not_found, already_exists, permission_denied, resource_exhausted,
  failed_precondition, aborted, out_of_range, unimplemented, internal, unavailable, data_loss,
  unauthenticated,
}
use grapec.Text.{Str, codes, same_text}
use grapec.Text.Base64.{b64encode, b64decode}
use grapec.Text.Digits.{digits, int_of}
use grapec.Wire.{Bytes}

-- A dict of texts: headers or trailers.
abbrev pub Headers : Type 0
Headers = List (Str × Str)

-- A value of metadata.
pub data Datum : Type 0 where
  text : Str → Datum
  binary : Bytes → Datum

abbrev pub Metadata : Type 0
Metadata = List (Str × Datum)

unfoldable pub find {ℓ} : {A : Type ℓ} → Str → List (Str × A) → Option A
find key [] = none
find key ((k, v) ∷ rest) = if same_text k key then some v else find key rest

unfoldable pub starts_with : Str → Str → Bool
starts_with [] s = true
starts_with (p ∷ ps) [] = false
starts_with (p ∷ ps) (c ∷ cs) = p == c && starts_with ps cs

unfoldable pub ends_with : Str → Str → Bool
unfolding starts_with
ends_with suffix s = starts_with (reverse suffix) (reverse s)

unfoldable pub has : ℕ → Str → Bool
has char [] = false
has char (c ∷ cs) = c == char || has char cs

unfoldable pub lower : Str → Str
lower [] = []
lower (c ∷ cs) = (if leb b'A' c && leb c b'Z' then c + 32 else c) ∷ lower cs

pub authority : Str → ℕ → Str
unfolding has digits
authority host port =
    if has b':' host
    then b'[' ∷ (host ++ (b']' ∷ b':' ∷ digits port))
    else host ++ (b':' ∷ digits port)

-- `_STATUS_KEYS`
unfoldable pub is_status_key : Str → Bool
unfolding same_text
is_status_key key =
    same_text key (codes "grpc-status")
    || same_text key (codes "grpc-message")
    || same_text key (codes "grpc-status-details-bin")

unfoldable pub is_hidden : Str → Bool
unfolding starts_with is_status_key
is_hidden key = starts_with (codes ":") key || is_status_key key

-- `"=" * (-len(text) % 4)`
unfoldable pub padding : ℕ → Str
padding n =
    if n % 4 == 1
    then codes "==="
    else if n % 4 == 2
    then codes "=="
    else if n % 4 == 3
    then codes "="
    else []

abbrev or_nothing : Result Bytes → Bytes
or_nothing (ok bytes) = bytes
or_nothing (err e) = []

-- `_b64decode`
unfoldable pub b64_or_nothing : Str → Bytes
unfolding padding
b64_or_nothing [] = []
b64_or_nothing (c ∷ cs) = or_nothing (b64decode ((c ∷ cs) ++ padding (length (c ∷ cs))))

unfoldable pub datum : Str → Str → Datum
unfolding ends_with b64_or_nothing
datum key value = if ends_with (codes "-bin") key then binary (b64_or_nothing value) else text value

-- `_metadata`
unfoldable pub metadata : Headers → Metadata
unfolding is_hidden datum
metadata [] = []
metadata ((key, value) ∷ rest) =
    let others = metadata rest in if is_hidden key then others else (key, datum key value) ∷ others

-- `Status(n)`
unfoldable pub status_of : ℕ → Option Status
status_of n =
    if n == 0
    then some ok_status
    else if n == 1
    then some cancelled
    else if n == 2
    then some unknown
    else if n == 3
    then some invalid_argument
    else if n == 4
    then some deadline_exceeded
    else if n == 5
    then some not_found
    else if n == 6
    then some already_exists
    else if n == 7
    then some permission_denied
    else if n == 8
    then some resource_exhausted
    else if n == 9
    then some failed_precondition
    else if n == 10
    then some aborted
    else if n == 11
    then some out_of_range
    else if n == 12
    then some unimplemented
    else if n == 13
    then some internal
    else if n == 14
    then some unavailable
    else if n == 15
    then some data_loss
    else if n == 16
    then some unauthenticated
    else none

unfoldable pub status_code : Str → Status
unfolding status_of int_of
status_code raw = elim (int_of raw) [
  | none ↦ unknown
  | some (negsuc n) ↦ unknown
  | some (pos n) ↦ elim (status_of n) [ none ↦ unknown | some code ↦ code ]
]

-- One entry of the metadata of a request.
unfoldable pub request_header : Str → Datum → Result (Str × Str)
unfolding starts_with ends_with
request_header key value =
    if starts_with (codes ":") key || starts_with (codes "grpc-") key
    then err value_error
    else elim value [
      | text s ↦ ok (key, s)
      | binary bytes ↦
          if ends_with (codes "-bin") key then ok (key, b64encode bytes) else err value_error
    ]

unfoldable pub request_metadata : Metadata → Result Headers
unfolding request_header lower
request_metadata [] = ok []
request_metadata ((key, value) ∷ rest) = do
  header ← request_header (lower key) value
  headers ← request_metadata rest
  ok (header ∷ headers)

abbrev optional_header : Str → Option Str → Headers
optional_header key none = []
optional_header key (some value) = (key, value) ∷ []

-- `_request_headers`
unfoldable pub request_headers :
    Str → Str → Str → Option Str → Metadata → Option Str → Result Headers
unfolding request_metadata
request_headers scheme target path timeout entries compression = do
  extra ← request_metadata entries
  ok (
      (codes ":method", codes "POST")
      ∷ (codes ":scheme", scheme)
      ∷ (codes ":path", path)
      ∷ (codes ":authority", target)
      ∷ (codes "te", codes "trailers")
      ∷ (codes "content-type", codes "application/grpc")
      ∷ (codes "user-agent", codes "grapec")
      ∷ (codes "grpc-accept-encoding", codes "identity,gzip,deflate")
      ∷ (optional_header (codes "grpc-encoding") compression
          ++ (optional_header (codes "grpc-timeout") timeout ++ extra)))
