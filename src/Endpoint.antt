-- ===== src/Endpoint.antt =====
-- The connections of a server: capturer/tcp.go, and of capturer/capture.go the direction of a stream and
-- `addStream`. An address is the text that its `String` gives.
pub mod Direction
pub mod Streams
pub mod Factory
pub mod Kept
pub mod Validation
mod Tests
use data_collector.Base.{
  Bool, true, false, List, [], ◌∷◌, ◌++◌, Option, none, some, if◌then◌else◌, Text, text_eq, get,
  put, Result, ok, err, closed_channel, ◌>>=◌, or_fault,
}
use data_collector.Streams.Reader.{StreamReader}
use data_collector.Streams.Concurrent.{ConcurrentReader, new_concurrent_reader, set_reader_ready}

-- `TCPConn`
pub record TcpConn : Type 0 where
  pub client_addr : Text
  pub server_addr : Text
  pub client2server_stream : ConcurrentReader
  pub server2client_stream : ConcurrentReader
  pub started : Bool

-- `NewTCPConn`
unfoldable pub new_tcp_conn : Text → Text → Option StreamReader → Option StreamReader → TcpConn
new_tcp_conn client server c2s s2c = record {
  client_addr = client;
  server_addr = server;
  client2server_stream = new_concurrent_reader c2s;
  server2client_stream = new_concurrent_reader s2c;
  started = false;
}

-- The common part of `SetC2SStream` and `SetS2CStream`: a stream is set once, and announced. The close of
-- a channel that is closed panics.
unfoldable pub set_reader :
    StreamReader → ConcurrentReader → Option StreamReader → Result ConcurrentReader
unfolding set_reader_ready
set_reader stream m (some r) = ok m
set_reader stream m none =
    or_fault (set_reader_ready (record m { reader = some stream })) closed_channel

unfoldable pub set_c2s_stream : StreamReader → TcpConn → Result TcpConn
unfolding set_reader
set_c2s_stream stream c = do
  m ← set_reader stream (c.client2server_stream) (c.client2server_stream.reader)
  ok (record c { client2server_stream = m })

unfoldable pub set_s2c_stream : StreamReader → TcpConn → Result TcpConn
unfolding set_reader
set_s2c_stream stream c = do
  m ← set_reader stream (c.server2client_stream) (c.server2client_stream.reader)
  ok (record c { server2client_stream = m })

pub data StreamType : Type 0 where
  client2server_stream_type server2client_stream_type : StreamType

-- `ServerEndPoint`, less what the choice of a decoder uses; `parsing` lists the connections whose parse
-- was started.
pub record ServerEndPoint : Type 0 where
  pub address : Text
  pub conns : List (Text × TcpConn)
  pub parsing : List Text

unfoldable pub set_stream : StreamType → StreamReader → TcpConn → Result TcpConn
unfolding set_c2s_stream set_s2c_stream
set_stream client2server_stream_type stream c = set_c2s_stream stream c
set_stream server2client_stream_type stream c = set_s2c_stream stream c

-- The connection of a client; a new one is parsed.
unfoldable pub conn_of : Text → Text → ServerEndPoint → Option TcpConn → ServerEndPoint × TcpConn
unfolding new_tcp_conn put
conn_of ca sa s (some c) = (s, c)
conn_of ca sa s none =
    let c = new_tcp_conn ca sa none none in
    (record s { conns = put ca c (s.conns); parsing = s.parsing ++ ca ∷ [] }, c)

-- `addStream`
unfoldable pub add_stream :
    Text → Text → StreamReader → StreamType → ServerEndPoint → Result ServerEndPoint
unfolding conn_of set_stream get put
add_stream ca sa stream st s =
    let (s0, c) = conn_of ca sa s (get ca (s.conns)) in
    let added : Result ServerEndPoint =
      set_stream st stream c >>= (λ c1. ok (record s0 { conns = put ca c1 (s0.conns) })) in
    if text_eq sa (s.address) then added else ok s
