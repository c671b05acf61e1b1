-- ===== src/Lib.antt =====
-- A model of grapec, a library for gRPC and framed thrift clients whose messages are Python
-- dataclasses. A session (src/grapec/session.py) keeps a pool of idle connections
-- (src/grapec/pool.py); a call takes a connection, sends its encoded arguments, waits for the reply
-- and decodes it. The codecs are src/grapec/protobuf.py over src/grapec/wire.py, and
-- src/grapec/thrift.py, which also holds the state of a thrift connection; src/grapec/sync.py drives
-- that state over a socket. src/grapec/schema.py describes the classes for both codecs.
--
-- Files, and what of the program they model:
--   Base, Base/*        names, tests, lists and bits that every module shares; ℤ is Python's int
--   Errors              errors.py, and the exceptions of all modules as values
--   Text, Text/*        Python's str, its UTF-8 and `==`, int and str of numbers, base64 and unquote
--   Struct, Struct/*    the formats of Python's struct
--   Float               the float that Python's struct packs for an int
--   Socket              settimeout and sendall of Python's sockets, as sync.py calls them
--   Wire, Wire/*        wire.py
--   Pool, Pool/*        pool.py: Pool.__init__, take, give_back and drain
--   Session, Session/*  session.py: the options, _acquire, _release, call and close of Session;
--                       Session/Threads has their steps in several threads, Session/Async is
--                       AsyncSession
--   Schema, Schema/*    schema.py: type and field descriptions, by_number, pick, zero_value, and the
--                       numbering of fields in build_schema
--   Protobuf, Protobuf/* protobuf.py: encode and decode
--   Grpc, Grpc/*        grpc.py: the frame of a message, with and without compression, and the status
--                       of an HTTP response; Grpc/Metadata: the headers of a request and the metadata
--                       of a response; Grpc/Call: _Call; Grpc/Protocol: GrpcProtocol over the package
--                       h2, a record of operations; Grpc/Connection: GrpcConnection of sync.py
--   Thrift, Thrift/*    thrift.py: readers and skip; Thrift/Encode, Thrift/Decode: the codec of
--                       structs, with its laws in Thrift/Codec; Thrift/Schemas: check_schema, encode
--                       and decode; Thrift/Calls: method_fields, encode_call and decode_result;
--                       Thrift/Message: encode_message, decode_message and application_error;
--                       Thrift/Protocol: ThriftProtocol; Thrift/Connection: ThriftConnection of sync.py
--   Dict, Dict/*        dict.py: the text of durations, written and parsed
--   Service, Service/*  service.py: raises
--   Aio, Aio/*          aio.py: AsyncGrpcConnection and AsyncThriftConnection, beside those of sync.py
-- The modules named Examples hold runs and instances of the theorems.
--
-- Conventions. A method is a function from the state to its result or exception and the new state. A
-- buffer that is read from a position on is the list of the bytes that are left. Bytes are numbers,
-- text is a list of code points, a float is its IEEE 754 pattern, a datetime is the microseconds
-- since the epoch and a timedelta its microseconds; a clock's reading is a number and an argument.
-- What a socket or a factory does is an argument too, and what polling and closing a connection
-- raise is a part of the transport of a session. What h2 does is a parameter, with the
-- exceptions that it raises as hypotheses where a theorem needs them. The texts of
-- exceptions and the CallDetails of a call are left out.
--
-- Fuel. A loop over a buffer has the buffer's length as fuel, which is enough as each round takes a
-- byte or a frame. The loop of data_to_send in grpc.py has the length of what is pending, as each
-- round sends a byte at least. The loop of _acquire has one round more than there are idle
-- connections, and the search for a field number stops behind the highest used number. Structs, and
-- the values that `skip` of thrift.py passes over, nest up to a limit, a part of `Classes` and of
-- `Protocol`, where Python raises RecursionError. encode_varint is by well-founded recursion.
--
-- Not modelled: a naive datetime, which Python reads in the local time zone; subclasses of struct
-- classes; the resolution of type hints in schema.py and struct.py; dict.py but for durations;
-- proto.py and service.py but for MethodSpec and raises; the text that _format_timeout makes of a
-- float; tasks that run between two awaits of AsyncSession; opening connections and TLS.
pub mod Aio
pub mod Base
pub mod Dict
pub mod Errors
pub mod Text
pub mod Socket
pub mod Struct
pub mod Wire
pub mod Thrift
pub mod Float
pub mod Schema
pub mod Protobuf
pub mod Pool
pub mod Grpc
pub mod Service
pub mod Session
