-- ===== src/Aio/Thrift/Examples.antt =====
-- An instance of what is proved about AsyncThriftConnection of aio.py.
use grapec.Aio.Thrift
use grapec.Aio.Thrift.Laws.{drained, read_as, unary-read_as}
use grapec.Base.{◌≡◌, refl, true, false, [], ◌∷◌, map, none}
use grapec.Socket.{set, late}
use grapec.Text.{codes}
use grapec.Thrift.Connection
use grapec.Thrift.Connection.{Event}
use grapec.Thrift.Protocol

abbrev thrift_connection : Thrift.AsyncConnection
thrift_connection = record { proto = Protocol.init 1000 none; connected = true; closing = false }

unary-read_as_example :
    let (r, p) =
      Connection.unary
        (codes "/s/m")
        (7 ∷ [])
        set
        late
        (Event.silence ∷ [])
        thrift_connection.proto in
    Thrift.unary
      (codes "/s/m")
      (7 ∷ [])
      (drained late)
      (map read_as (Event.silence ∷ []))
      thrift_connection
    ≡ (r, record thrift_connection { proto = p })
unary-read_as_example =
    unary-read_as (codes "/s/m") (7 ∷ []) late (Event.silence ∷ []) thrift_connection refl
