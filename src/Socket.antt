-- ===== src/Socket.antt =====
-- What the methods of a blocking socket, which sync.py calls, may do beside `recv`.
use grapec.Errors.{Result, ok, err, value_error, overflow_error, socket_timeout, os_error}

-- `settimeout`: a negative timeout or NaN is a ValueError, one that the clock cannot hold, such as
-- an infinite one, an OverflowError, and a socket that is closed an OSError.
pub data Setting : Type 0 where
  set negative too_long unusable : Setting

unfoldable pub setting : Setting → Result (Unit {0})
setting set = ok tt
setting negative = err value_error
setting too_long = err overflow_error
setting unusable = err os_error

-- `sendall`: it sends all, the call's time is over, or the socket fails.
pub data Sending : Type 0 where
  passed late refused : Sending

unfoldable pub sending : Sending → Result (Unit {0})
sending passed = ok tt
sending late = err socket_timeout
sending refused = err os_error
