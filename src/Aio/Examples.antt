-- ===== src/Aio/Examples.antt =====
-- Runs of the connections of aio.py, and instances of what is proved about them.
use grapec.Aio.{Stop, Reading, Turn}
use grapec.Aio.Grpc
use grapec.Aio.Grpc.Laws.{awaits, IsSettled, unary-awaits, unary-IsSettled}
use grapec.Base.{◌≡◌, refl, true, false, [], ◌∷◌, map, none}
use grapec.Errors.{ok, err, h2_error, cancelled_error}
use grapec.Grpc.Call.{broken, is_nil}
use grapec.Grpc.Connection
use grapec.Grpc.Connection.{Heard}
use grapec.Grpc.Connection.Samples.{one_stream, plain, fresh, turns, data_frame}
use grapec.Grpc.Protocol.{H2, init, feed, feed_idle, start, data_to_send, done, healthy, abort}
use grapec.Struct.{pack_unsigned, unpack_unsigned}
use grapec.Socket.{set}
use grapec.Text.{codes}

abbrev connection : Grpc.AsyncConnection one_stream
connection = record { proto = fresh; connected = true; closing = false }

-- The task is cancelled while it waits for the response.
abbrev interrupted : Turn
interrupted = record { drains = none; reading = Reading.stopped Stop.cancellation }

cancelled_run :
    (Grpc.unary one_stream plain
      (codes "/s/m")
      (7 ∷ [])
      none
      []
      none
      (interrupted ∷ [])
      true
      connection).0
    ≡ broken cancelled_error
unfolding Grpc.unary Grpc.attempt Grpc.exchange Grpc.handle start init pack_unsigned data_to_send
    done
cancelled_run = refl

unary-IsSettled_example : IsSettled one_stream (
    Grpc.unary one_stream plain
      (codes "/s/m")
      (7 ∷ [])
      none
      []
      none
      (interrupted ∷ [])
      true
      connection)
unary-IsSettled_example =
    unary-IsSettled one_stream plain (codes "/s/m") (7 ∷ []) none [] none (interrupted ∷ []) true
      connection refl

unary-awaits_example :
    let (ending, p) =
      Connection.unary one_stream plain (codes "/s/m") (7 ∷ []) none [] none set turns true fresh in
    Grpc.unary one_stream plain
      (codes "/s/m")
      (7 ∷ [])
      none
      []
      none
      (map awaits turns)
      true
      connection
    ≡ (ending, record connection { proto = p })
unary-awaits_example =
    unary-awaits one_stream plain (codes "/s/m") (7 ∷ []) none [] none turns true connection refl

-- An h2 that rejects every frame.
abbrev strict : H2
strict = record one_stream { receive_data = λ bytes s. (err h2_error, s) }

abbrev strict_connection : Grpc.AsyncConnection strict
strict_connection = record {
  proto = init strict (codes "host:1") false;
  connected = true;
  closing = false;
}

-- A frame that h2 rejects on an idle connection: `poll` raises H2Error, where that of sync.py
-- returns.
poll_run :
    (Grpc.poll strict (Grpc.Peek.reads (Reading.chunk data_frame) ∷ []) true strict_connection).0
    ≡ err h2_error
unfolding Grpc.poll init feed feed_idle healthy unpack_unsigned
poll_run = refl

blocking_poll_run :
    (Connection.poll strict
      (Heard.chunk data_frame ∷ [])
      true
      (init strict (codes "host:1") false)).0
    ≡ ok tt
unfolding Connection.poll init feed feed_idle healthy unpack_unsigned is_nil abort
blocking_poll_run = refl
