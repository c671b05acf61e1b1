-- ===== src/Grpc/Connection/Examples.antt =====
-- Runs of a call over a gRPC connection, and instances of what is proved about it and its protocol.
use grapec.Base.{◌<◌, ◌≡◌, refl, arith, true, false, [], ◌∷◌, ◌++◌, none, some, drop, All}
use grapec.Errors.{ok, transport_error, closed_by_peer}
use grapec.Grpc.Call.{answered, broken}
use grapec.Grpc.Connection.{passed, chunk, unary, attempt, exchange, handle}
use grapec.Grpc.Connection.Outcomes.{CallEnding, unary-CallEnding}
use grapec.Grpc.Connection.Release.{IsIdle, unary-IsIdle}
use grapec.Grpc.Metadata.{
  Headers, text, binary, Metadata, request_metadata, metadata, lower, ends_with,
}
use grapec.Grpc.Metadata.RoundTrip.{metadata-request_metadata}
use grapec.Grpc.Protocol.{Protocol, init, start, feed, data_to_send, result}
use grapec.Grpc.Protocol.Feed.{feed-append}
use grapec.Grpc.Protocol.Raises.{RaisesH2, RaisesOs}
use grapec.Struct.{pack_unsigned, unpack_unsigned}
use grapec.Socket.{set, setting, passed}
use grapec.Text.{codes}
use grapec.Text.Base64.{b64encode}
use grapec.Grpc.Connection.Samples.{one_stream, plain, fresh, data_frame, turns}

unary_run :
    (unary one_stream plain (codes "/s/m") (7 ∷ []) none [] none set turns true fresh).0
    ≡ answered (42 ∷ []) [] []
unfolding setting unary attempt exchange handle start feed init pack_unsigned data_to_send
    unpack_unsigned result metadata
unary_run = refl

-- The peer closes the connection before it answers.
broken_run :
    (unary one_stream plain
      (codes "/s/m")
      (7 ∷ [])
      none
      []
      none
      set
      (record { sends = passed; heard = chunk [] } ∷ [])
      true
      fresh).0
    ≡ broken (transport_error closed_by_peer)
unfolding setting unary attempt exchange handle start feed init pack_unsigned data_to_send
    unpack_unsigned result
broken_run = refl

abbrev one_stream_raises : RaisesH2 one_stream
one_stream_raises = record {
  next = λ s. tt;
  opens = λ n headers s. tt;
  windows = λ n s. tt;
  sends = λ n bytes last s. tt;
  receives = λ bytes s. tt;
  acknowledges = λ size n s. tt;
}

abbrev plain_raises : RaisesOs plain
plain_raises = record { gzips = λ bytes. tt; zlibs = λ bytes. tt }

unary-CallEnding_example :
    CallEnding
      (unary one_stream plain
        (codes "/s/m")
        (7 ∷ [])
        none
        []
        (some (codes "gzip"))
        set
        turns
        true
        fresh).0
unary-CallEnding_example =
    unary-CallEnding one_stream one_stream_raises plain plain_raises (codes "/s/m") (7 ∷ []) none []
      (some (codes "gzip")) set turns true fresh

unary-IsIdle_example :
    IsIdle one_stream
      (unary one_stream plain (codes "/s/m") (7 ∷ []) none [] none set turns false fresh)
unary-IsIdle_example =
    unary-IsIdle one_stream plain (codes "/s/m") (7 ∷ []) none [] none set turns false fresh

-- A fresh protocol that was fed a piece of a frame.
abbrev waiting : Protocol one_stream
waiting = record fresh { inbuf = 0 ∷ 0 ∷ 6 ∷ [] }

feed_run : feed one_stream (0 ∷ 0 ∷ 6 ∷ []) fresh ≡ (ok tt, waiting)
unfolding feed init
feed_run = refl

feed-append_example :
    feed one_stream ((0 ∷ 0 ∷ 6 ∷ []) ++ drop 3 data_frame) fresh
    ≡ feed one_stream (drop 3 data_frame) waiting
feed-append_example =
    feed-append one_stream (0 ∷ 0 ∷ 6 ∷ []) (drop 3 data_frame) fresh waiting (omega arith)
      (omega arith) feed_run

abbrev entries : Metadata
entries = (codes "x-id", text (codes "7")) ∷ (codes "blob-bin", binary (1 ∷ 2 ∷ [])) ∷ []

abbrev sent : Headers
sent = (codes "x-id", codes "7") ∷ (codes "blob-bin", codes "AQI=") ∷ []

sent_run : request_metadata entries ≡ ok sent
unfolding request_metadata b64encode
sent_run = refl

metadata-request_metadata_example : metadata sent ≡ entries
metadata-request_metadata_example =
    metadata-request_metadata entries sent
      ((unfold lower in refl, unfold ends_with in refl), ((unfold lower in refl, small), tt))
      sent_run
  where
    small : All (λ b. b < 256) (1 ∷ 2 ∷ [])
    small = (omega arith, (omega arith, tt))
