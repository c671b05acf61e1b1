-- ===== src/Grpc/Connection/Samples.antt =====
-- Connections and frames for the runs of grpc.py, sync.py and aio.py.
use grapec.Base.{Bool, true, false, List, [], ◌∷◌, ◌++◌, length, if◌then◌else◌, ◌==◌, drop}
use grapec.Errors.{ok}
use grapec.Grpc.{Compressors}
use grapec.Grpc.Connection.{Turn, chunk}
use grapec.Grpc.Protocol.{H2, Protocol, Event, init}
use grapec.Socket.{passed}
use grapec.Text.{codes}
use grapec.Wire.{Bytes}

-- An h2 of one stream, whose state is whether the connection is closed: frames of type 0 are data,
-- of type 1 headers of a response without a message, of type 7 the end.
abbrev pub events_of : Bytes → List Event
events_of frame = elim (drop 3 frame) [
  | [] ↦ []
  | kind ∷ rest ↦
      if kind == 0
      then Event.data_received 1 (length frame) (drop 9 frame) ∷ []
      else if kind == 1
      then Event.response_received 1 ((codes ":status", codes "200") ∷ [])
        ∷ Event.trailers_received 1 ((codes "grpc-status", codes "0") ∷ [])
        ∷ Event.stream_ended 1
        ∷ []
      else Event.connection_terminated 0 ∷ []
]

abbrev pub one_stream : H2
one_stream = record {
  State = Bool;
  initial = false;
  is_closed = λ s. s;
  next_stream_id = λ s. ok 1;
  send_headers = λ n headers s. (ok tt, s);
  window = λ n s. ok 4;
  send_data = λ n bytes last s. (ok tt, s);
  data_to_send = λ s. (1 ∷ [], s);
  receive_data = λ bytes s. (ok (events_of bytes), s);
  acknowledge = λ size n s. (ok tt, s);
  reset_stream = λ n s. (ok tt, s);
  close_connection = λ s. (ok tt, true);
}

abbrev pub plain : Compressors
plain = record {
  gzip_compress = λ b. b;
  gzip_decompress = λ b. ok b;
  zlib_compress = λ b. b;
  zlib_decompress = λ b. ok b;
}

abbrev pub fresh : Protocol one_stream
fresh = init one_stream (codes "host:1") false

abbrev pub data_frame : Bytes
data_frame = 0 ∷ 0 ∷ 6 ∷ 0 ∷ 0 ∷ 0 ∷ 0 ∷ 0 ∷ 1 ∷ 0 ∷ 0 ∷ 0 ∷ 0 ∷ 1 ∷ 42 ∷ []

abbrev pub end_frame : Bytes
end_frame = 0 ∷ 0 ∷ 0 ∷ 1 ∷ 5 ∷ 0 ∷ 0 ∷ 0 ∷ 1 ∷ []

-- The data comes in two pieces.
abbrev pub turns : List Turn
turns =
    record { sends = passed; heard = chunk (0 ∷ 0 ∷ 6 ∷ []) }
    ∷ record { sends = passed; heard = chunk (drop 3 data_frame ++ end_frame) }
    ∷ []
