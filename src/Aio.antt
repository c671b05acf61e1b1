-- ===== src/Aio.antt =====
-- What the connections of src/grapec/aio.py await. An await of asyncio answers, or it stops: the
-- call's time is over (TimeoutError), the task is cancelled, or the stream fails.
pub mod Grpc
pub mod Thrift
mod Examples
use grapec.Errors.{Result, ok, err, Error, socket_timeout, os_error, cancelled_error}
use grapec.Base.{ℕ, Bool, List, Option, none, some}
use grapec.Wire.{Bytes}

pub data Stop : Type 0 where
  timeout cancellation failure : Stop

unfoldable pub stopped_by : Stop → Error
stopped_by timeout = socket_timeout
stopped_by cancellation = cancelled_error
stopped_by failure = os_error

unfoldable pub awaited {ℓ} : {A : Type ℓ} → A → Option Stop → Result A
unfolding stopped_by
awaited a none = ok a
awaited a (some stop) = err (stopped_by stop)

-- What `reader.read` does: bytes come, none at the end of the stream, or the await stops.
pub data Reading : Type 0 where
  chunk : Bytes → Reading
  stopped : Stop → Reading

-- A round of the loop in `unary`: what stops `writer.drain`, if it is awaited and stops, and what
-- `reader.read` does behind it.
pub record Turn : Type 0 where
  pub drains : Option Stop
  pub reading : Reading
